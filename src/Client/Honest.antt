-- ===== src/Client/Honest.antt =====
-- The client's read loop returns what a replica answered.
use final_project_nimbusvaul.Base.{
  ℕ, zero, suc, ◌≡◌, refl, sym, ◌∙◌, true, List, [], ◌∷◌, none, some, Bytes, codes, ◌==◌,
  if◌then◌else◌, Option-cases, ◌⊎◌, inl, inr, if_elim,
}
use final_project_nimbusvaul.Replicas.{StorageNet}
use final_project_nimbusvaul.Client.{
  Client, replied, MetaNet, ChunkInfoResp, parse_replica_entry, get_or_create_stub,
  build_replica_try_list, attempts, target_of, try_read, try_all, retry, read_result, get_from, get,
  get_failed,
}

module _ {N : Type 0} ⦃net : StorageNet N⦄ where
  -- In the networks that `on` describes, which the reads of the chunk and the pauses stay in, every
  -- answer of a storage node satisfies `P`.
  pub record AllAnswers (on : N → Type 0) (sleep : N → N) (chunk_id : Bytes) (target : ℕ)
      (P : Bytes × ℕ → Type 0) : Type 0 where
    pub reads : (n : N) (addr : Bytes) → on n → on (net.read_rpc n addr chunk_id target).1
    pub sleeps : (n : N) → on n → on (sleep n)
    pub honest :
        (n : N) (addr : Bytes) (found : Bytes × ℕ)
        → on n
        → (net.read_rpc n addr chunk_id target).0 ≡ some found
        → P found

  module _ (on : N → Type 0) (sleep : N → N) (chunk_id : Bytes) (target : ℕ)
      (P : Bytes × ℕ → Type 0) (all : AllAnswers on sleep chunk_id target P) where
    try_read_on :
        (c : Client) (n : N) (entry : Bytes) → on n → on (try_read c n chunk_id target entry).2
    unfolding try_read
    try_read_on c n entry here =
        let parsed = parse_replica_entry entry in
        elim (Option-cases (get_or_create_stub c parsed.0 parsed.1).0) [
          | inl null ↦ rw (null, try_read) here
          | inr (addr, at) ↦ rw (at, try_read) (all.reads n addr here)
        ]

    try_read_honest :
        (c : Client) (n : N) (entry : Bytes) (found : Bytes × ℕ)
        → on n
        → (try_read c n chunk_id target entry).0 ≡ some found
        → P found
    unfolding try_read
    try_read_honest c n entry found here got =
        let parsed = parse_replica_entry entry in
        elim (Option-cases (get_or_create_stub c parsed.0 parsed.1).0) [
          | inl null ↦
              let nothing : (try_read c n chunk_id target entry).0 ≡ none =
                rw (null, try_read) refl in
              absurd (cc)
          | inr (addr, at) ↦
              let called : (try_read c n chunk_id target entry).0
                  ≡ (net.read_rpc n addr chunk_id target).0 =
                rw (at, try_read) refl in
              all.honest n addr found here (sym called ∙ got)
        ]

    try_all_on :
        (entries : List Bytes) (c : Client) (n : N)
        → on n
        → on (try_all c n chunk_id target entries).2
    unfolding try_all
    try_all_on [] c n here = here
    try_all_on (entry ∷ entries) c n here =
        let tried = try_read c n chunk_id target entry in
        let there = try_read_on c n entry here in
        elim (Option-cases tried.0) [
          | inr (other, at) ↦ rw (at, try_all) there
          | inl nothing ↦ rw (nothing, try_all) (try_all_on entries tried.1 tried.2 there)
        ]

    try_all_honest :
        (entries : List Bytes) (c : Client) (n : N) (found : Bytes × ℕ)
        → on n
        → (try_all c n chunk_id target entries).0 ≡ some found
        → P found
    unfolding try_all
    try_all_honest [] c n found here got = absurd (cc)
    try_all_honest (entry ∷ entries) c n found here got =
        let tried = try_read c n chunk_id target entry in
        elim (Option-cases tried.0) [
          | inr (other, at) ↦
              let first : (try_all c n chunk_id target (entry ∷ entries)).0 ≡ tried.0 =
                rw (at, try_all) at in
              try_read_honest c n entry found here (sym first ∙ got)
          | inl nothing ↦
              let more : (try_all c n chunk_id target (entry ∷ entries)).0
                  ≡ (try_all tried.1 tried.2 chunk_id target entries).0 =
                rw (nothing, try_all) refl in
              try_all_honest entries tried.1 tried.2 found (try_read_on c n entry here)
                (sym more ∙ got)
        ]

    retry_honest :
        (left : ℕ) (entries : List Bytes) (c : Client) (n : N) (found : Bytes × ℕ)
        → on n
        → (retry sleep left c n chunk_id target entries).0 ≡ some found
        → P found
    unfolding retry
    retry_honest zero entries c n found here got = absurd (cc)
    retry_honest (suc left) entries c n found here got =
        let tried = try_all c n chunk_id target entries in
        let there = try_all_on entries c n here in
        elim (Option-cases tried.0) [
          | inr (other, at) ↦
              let first : (retry sleep (suc left) c n chunk_id target entries).0 ≡ tried.0 =
                rw (at, retry) at in
              try_all_honest entries c n found here (sym first ∙ got)
          | inl nothing ↦
              let rested = if left == 0 then tried.2 else sleep tried.2 in
              let more : (retry sleep (suc left) c n chunk_id target entries).0
                  ≡ (retry sleep left tried.1 rested chunk_id target entries).0 =
                rw (nothing, retry) refl in
              retry_honest left entries tried.1 rested found
                (if_elim on (left == 0) tried.2 (sleep tried.2) (λ _. there)
                  (λ _. all.sleeps tried.2 there))
                (sym more ∙ got)
        ]

  -- A read for which the coordinator replies with ok returns what a storage node answered, or it
  -- fails with "all replicas failed" and no data: what holds of every answer of the storage nodes,
  -- in the networks that the reads and the pauses lead to, holds of the data and the version that
  -- are returned.
  pub get-honest :
      {M : Type 0} ⦃coordinator : MetaNet M⦄ (sleep : N → N) (c : Client) (m : M) (n : N)
      (chunk_id : Bytes) (min_version : ℕ) (resp : ChunkInfoResp) (on : N → Type 0)
      (P : Bytes × ℕ → Type 0)
      → (coordinator.chunk_info m chunk_id).0 ≡ replied resp
      → resp.ok ≡ true
      → on n
      → AllAnswers on sleep chunk_id (target_of min_version resp.meta) P
      → let r = (get sleep c m n chunk_id min_version).0 in
        ((r.ok ≡ true) × P (r.content, r.version)) ⊎ (r ≡ get_failed (codes "all replicas failed"))
  unfolding get get_from
  get-honest sleep c m n chunk_id min_version resp on P told ok here all =
      let target = target_of min_version resp.meta in
      elim (Option-cases
        (retry sleep attempts c n chunk_id target (build_replica_try_list resp.meta)).0) [
          | inl nothing ↦ rw (told, get, ok, get_from, nothing) (inr (unfold read_result in refl))
          | inr ((content, version), at) ↦
              rw (told, get, ok, get_from, at)
                (unfold read_result in
                  inl (
                    refl,
                    retry_honest on sleep chunk_id target P all attempts
                        (build_replica_try_list resp.meta) c n (content, version) here at,
                  ))
        ]
