-- ===== src/MetaRpc/Put.antt =====
-- What a put that is answered leaves, and what one that is refused leaves alone.
use final_project_nimbusvaul.Base.{
  ℕ, ◌<◌, ◌≡◌, refl, sym, ap, ◌∙◌, subst, true, List, [], Option, none, some, Bytes, u32, u64,
  int_top, ℤ, pos, length, arith, Bool-cases, inl, inr, same_refl, size_ltb,
}
use final_project_nimbusvaul.Base.Table.{find-insert}
use final_project_nimbusvaul.Rocks.{RocksDb, RocksLaws}
use final_project_nimbusvaul.Float.{Floats}
use final_project_nimbusvaul.Wal.{WalEntry, put_chunk}
use final_project_nimbusvaul.Coordinator.{
  ChunkEntry, NodeEntry, Coordinator, get_chunk, get_alive_nodes, apply_put_chunk, next_version,
}
use final_project_nimbusvaul.Coordinator.Lookup.{put_entry}
use final_project_nimbusvaul.Apply.{put_payload, apply_wal_entry}
use final_project_nimbusvaul.Apply.RoundTrip.{IsName, AreReplicas, apply-put_payload}
use final_project_nimbusvaul.Placement.{PlacementConfig, select_nodes}
use final_project_nimbusvaul.Replication.{WriteResult, ok, unavailable, timeout, Ack}
use final_project_nimbusvaul.Replicas.{StorageNet}
use final_project_nimbusvaul.Server.{replicate}
use final_project_nimbusvaul.Server.Commits.{IsReady, replicate-ok}
use final_project_nimbusvaul.Reconfig.{Cluster}
use final_project_nimbusvaul.MetaRpc.{
  chunk_transitioning, not_enough_nodes, storage_majority_unavailable, answer, refuse, PutReq,
  Stored, store_all, has_majority, finish_put, commit_put, is_transitioning, put_chunk_rpc,
}

module _ {F : Type 0} where
  chunk_put :
      (c : Coordinator F) (chunk_id : Bytes) (size : ℕ) (rf : ℤ) (replicas : List Bytes)
      (version : ℕ)
      → get_chunk (apply_put_chunk c chunk_id size rf replicas version) chunk_id
        ≡ some (put_entry chunk_id size rf replicas version)
  unfolding apply_put_chunk get_chunk
  chunk_put c chunk_id size rf replicas version =
      rw
        (
          find-insert chunk_id chunk_id (put_entry chunk_id size rf replicas version) c.chunk_table,
          same_refl chunk_id,
        )
        refl

  next_version_fits : (c : Coordinator F) (chunk_id : Bytes) → next_version c chunk_id < u64
  unfolding next_version
  next_version_fits c chunk_id = ground arith

  same_coord : {o : Option (Coordinator F)} {a b : Coordinator F} → o ≡ some a → o ≡ some b → a ≡ b
  same_coord p q = cc

-- The entry that a put of this request makes.
abbrev pub entry_of : PutReq → ℕ → List Bytes → ChunkEntry
entry_of req version entries = put_entry req.chunk_id req.size_bytes req.desired_rf entries version

same_answer : {A : Type 0} {a b : A} → answer a ≡ answer b → a ≡ b
same_answer e = cc

-- A request that a payload can hold.
pub record IsPut (req : PutReq) : Type 0 where
  pub name : IsName req.chunk_id
  pub size_fits : req.size_bytes < u64
  pub rf : ℕ
  pub rf_is : req.desired_rf ≡ pos rf
  pub rf_fits : rf < int_top

module _ {F : Type 0} ⦃fl : Floats F⦄ where
  put_applied :
      (c : Coordinator F) (now idx term : ℕ) (req : PutReq) (version : ℕ) (entries : List Bytes)
      → IsPut req
      → version < u64
      → AreReplicas entries
      → apply_wal_entry c now (record {
        log_index = idx;
        term = term;
        type = put_chunk;
        payload = put_payload req.chunk_id req.size_bytes req.desired_rf version entries;
      })
        ≡ some (apply_put_chunk c req.chunk_id req.size_bytes req.desired_rf entries version)
  put_applied c now idx term req version entries isput fits replicas =
      subst
        (λ z.
          apply_wal_entry c now (record {
            log_index = idx;
            term = term;
            type = put_chunk;
            payload = put_payload req.chunk_id req.size_bytes z version entries;
          })
          ≡ some (apply_put_chunk c req.chunk_id req.size_bytes z entries version))
        (sym isput.rf_is)
        (apply-put_payload c now idx term req.chunk_id req.size_bytes isput.rf version entries
          isput.name replicas isput.size_fits isput.rf_fits fits)

module _ {F D N : Type 0} ⦃fl : Floats F⦄ ⦃db : RocksDb D⦄ ⦃net : StorageNet N⦄
    (laws : RocksLaws db) where
  answered_ok :
      (s : Cluster F D N) (st : Stored N) (chunk_id : Bytes) (version v : ℕ) (entries : List Bytes)
      (r : Option WriteResult)
      → (finish_put s st chunk_id version r).0 ≡ answer (v, entries)
      → (r ≡ some ok)
        × (v ≡ version)
        × (entries ≡ st.replica_entries)
        × ((finish_put s st chunk_id version r).1 ≡ s)
  unfolding finish_put
  answered_ok s st chunk_id version v entries none h = absurd (cc)
  answered_ok s st chunk_id version v entries (some ok) h =
      let q = same_answer h in (refl, sym (ap (λ x. x.0) q), sym (ap (λ x. x.1) q), refl)
  answered_ok s st chunk_id version v entries (some unavailable) h = absurd (cc)
  answered_ok s st chunk_id version v entries (some timeout) h = absurd (cc)

  commit_version :
      (s : Cluster F D N) (now : ℕ) (polls : List (List Ack)) (req : PutReq) (version v : ℕ)
      (st : Stored N) (entries : List Bytes)
      → (commit_put s now polls req version st).0 ≡ answer (v, entries)
      → v ≡ version
  unfolding commit_put
  commit_version s now polls req version v st entries h = elim (Bool-cases (has_majority st)) [
    | inr few ↦
        let refused : (commit_put s now polls req version st).0
            ≡ refuse (storage_majority_unavailable st.failed_ids) =
          rw (few, commit_put) refl in
        absurd (cc)
    | inl enough ↦
        let written =
          replicate s.leader now put_chunk
            (put_payload req.chunk_id req.size_bytes req.desired_rf version st.replica_entries)
            polls in
        let s' : Cluster F D N = record { leader = written.1; network = st.network } in
        let went : commit_put s now polls req version st
            ≡ finish_put s' st req.chunk_id version written.0 =
          rw (enough, commit_put) refl in
        (answered_ok s' st req.chunk_id version v entries written.0
          (ap (λ x. x.0) (sym went) ∙ h)).1
  ]

  commit_put-stores :
      (s : Cluster F D N) (es : List WalEntry) (now : ℕ) (polls : List (List Ack)) (req : PutReq)
      (version v : ℕ) (st : Stored N) (entries : List Bytes)
      → IsReady laws s.leader es 1
      → IsPut req
      → version < u64
      → AreReplicas entries
      → length (put_payload req.chunk_id req.size_bytes req.desired_rf version entries) < u32
      → (commit_put s now polls req version st).0 ≡ answer (v, entries)
      → (has_majority st ≡ true)
        × (v ≡ version)
        × (entries ≡ st.replica_entries)
        × (get_chunk (commit_put s now polls req version st).1.leader.coord req.chunk_id
            ≡ some (entry_of req version entries))
  unfolding commit_put
  commit_put-stores s es now polls req version v st entries ready isput fits replicas short h =
      elim (Bool-cases (has_majority st)) [
        | inr few ↦
            let refused : (commit_put s now polls req version st).0
                ≡ refuse (storage_majority_unavailable st.failed_ids) =
              rw (few, commit_put) refl in
            absurd (cc)
        | inl enough ↦
            let written =
              replicate s.leader now put_chunk
                (put_payload req.chunk_id req.size_bytes req.desired_rf version st.replica_entries)
                polls in
            let s' : Cluster F D N = record { leader = written.1; network = st.network } in
            let went : commit_put s now polls req version st
                ≡ finish_put s' st req.chunk_id version written.0 =
              rw (enough, commit_put) refl in
            let (done, same_v, same_entries, same_s) =
              answered_ok s' st req.chunk_id version v entries written.0
                (ap (λ x. x.0) (sym went) ∙ h) in
            let applied =
              (replicate-ok laws s.leader es 0 now put_chunk _ polls ready
                (subst
                  (λ r.
                    length (put_payload req.chunk_id req.size_bytes req.desired_rf version r) < u32)
                  same_entries short)
                tt done).0 in
            (
              enough,
              same_v,
              same_entries,
              ap (λ x. get_chunk x.1.leader.coord req.chunk_id) went
                  ∙ ap (λ x. get_chunk x.leader.coord req.chunk_id) same_s
                  ∙ ap (λ c. get_chunk c req.chunk_id)
                      (same_coord applied (
                        put_applied s.leader.coord now _ _ req version st.replica_entries isput fits
                          (subst AreReplicas same_entries replicas)))
                  ∙ chunk_put s.leader.coord req.chunk_id req.size_bytes req.desired_rf
                      st.replica_entries version
                  ∙ ap (λ r. some (entry_of req version r)) (sym same_entries),
            )
      ]

  -- A put that is answered, by a leader with room in its log, of a request and replica entries that
  -- a payload can hold (a chunk id that is not empty and has no bar, numbers that fit, at least one
  -- replica entry and none empty or with a bar or comma, and a payload of fewer than 2 ^ 32 bytes):
  -- the answer's version is the one after the chunk's last, and the
  -- coordinator shows the chunk, stable, with that version, the request's size and replication
  -- factor, and the answer's replicas.
  pub put_chunk_rpc-stores :
      (s : Cluster F D N) (es : List WalEntry) (now : ℕ) (polls : List (List Ack))
      (cfg : PlacementConfig F) (shuffle : List (NodeEntry F) → List (NodeEntry F)) (req : PutReq)
      (v : ℕ) (entries : List Bytes)
      → IsReady laws s.leader es 1
      → IsPut req
      → AreReplicas entries
      → length (put_payload req.chunk_id req.size_bytes req.desired_rf v entries) < u32
      → (put_chunk_rpc s now polls cfg shuffle req).0 ≡ answer (v, entries)
      → (v ≡ next_version s.leader.coord req.chunk_id)
        × (get_chunk (put_chunk_rpc s now polls cfg shuffle req).1.leader.coord req.chunk_id
            ≡ some (entry_of req v entries))
  unfolding put_chunk_rpc
  put_chunk_rpc-stores s es now polls cfg shuffle req v entries ready isput replicas short h =
      let alive = get_alive_nodes s.leader.coord in
      let nodes = select_nodes cfg shuffle req.desired_rf alive [] in
      let version = next_version s.leader.coord req.chunk_id in
      elim (Bool-cases (is_transitioning (get_chunk s.leader.coord req.chunk_id))) [
        | inl moving ↦
            let refused : (put_chunk_rpc s now polls cfg shuffle req).0
                ≡ refuse chunk_transitioning =
              rw (moving, put_chunk_rpc) refl in
            absurd (cc)
        | inr settled ↦ elim (Bool-cases (size_ltb (length nodes) req.desired_rf)) [
          | inl few ↦
              let refused : (put_chunk_rpc s now polls cfg shuffle req).0
                  ≡ refuse not_enough_nodes =
                rw (settled, put_chunk_rpc, few) refl in
              absurd (cc)
          | inr enough ↦
              let st =
                store_all alive req.chunk_id version req.content
                  (record {
                    network = s.network;
                    replica_entries = [];
                    successful_addrs = [];
                    failed_ids = [];
                  })
                  nodes in
              let went : put_chunk_rpc s now polls cfg shuffle req
                  ≡ commit_put s now polls req version st =
                rw (settled, put_chunk_rpc, enough) refl in
              let done : (commit_put s now polls req version st).0 ≡ answer (v, entries) =
                ap (λ x. x.0) (sym went) ∙ h in
              let same_v : v ≡ version = commit_version s now polls req version v st entries done in
              let q =
                commit_put-stores s es now polls req version v st entries ready isput
                  (next_version_fits s.leader.coord req.chunk_id) replicas
                  (subst
                    (λ k.
                      length (put_payload req.chunk_id req.size_bytes req.desired_rf k entries)
                      < u32)
                    same_v short)
                  done in
              (
                same_v,
                ap (λ x. get_chunk x.1.leader.coord req.chunk_id) went
                    ∙ q.3
                    ∙ ap (λ k. some (entry_of req k entries)) (sym same_v),
              )
        ]
      ]
