-- ===== src/Fleet/Reads.antt =====
-- A client reads what was written to a storage node.
use final_project_nimbusvaul.Base.{
  ℕ, ◌≤◌, ◌≡◌, ◌≢◌, refl, sym, ap, ◌∙◌, true, [], some, Bytes, same, same_iff, same_refl, arith,
  All, Bool-cases, inl, inr, false≢true,
}
use final_project_nimbusvaul.Base.Table.{Table, find, insert, find-insert}
use final_project_nimbusvaul.Rocks.{RocksDb, RocksLaws}
use final_project_nimbusvaul.ChunkStore.{last_version}
use final_project_nimbusvaul.ChunkStore.Latest.{OnlyVersions}
use final_project_nimbusvaul.StorageRpc.{StorageNode, write_chunk}
use final_project_nimbusvaul.StorageRpc.Fetch.{fetch_after_write}
use final_project_nimbusvaul.ChunkRpc.{has_replica_node}
use final_project_nimbusvaul.Client.{
  Client, replied, MetaNet, ChunkInfoResp, build_replica_try_list, target_of, get, get_failed,
  GetResult,
}
use final_project_nimbusvaul.Client.Stubs.{StubFits}
use final_project_nimbusvaul.Client.Get.{ComesUp, GivesAddress, get-finds_replica}
use final_project_nimbusvaul.Client.Honest.{AllAnswers, get-honest}
use final_project_nimbusvaul.Fleet.{write_at, read_at, fleet}
use final_project_nimbusvaul.Fleet.Nodes.{answer_of, read_at-answer, Serves, read_at-Serves}

module _ {D : Type 0} ⦃r : RocksDb D⦄ where
  module _ (addr id : Bytes) (min_version : ℕ) (answer : Bytes × ℕ)
      (sleep : Table (StorageNode D) → Table (StorageNode D))
      (kept : (t : Table (StorageNode D))
        → Serves addr id min_version answer t
        → Serves addr id min_version answer (sleep t)) where
    serving_comes_up : ComesUp (Serves addr id min_version answer) sleep addr id min_version
    serving_comes_up = record {
      delay = λ t. 0;
      reads = λ t other h. (read_at-Serves t addr other id min_version answer h, omega arith);
      sleeps = λ t h. (kept t h, omega arith);
      answers = λ t h now q. absurd (cc (h.answers, q));
    }

    serving_agrees :
        AllAnswers
          (Serves addr id min_version answer)
          sleep
          id
          min_version
          (λ found. found ≡ answer)
    serving_agrees = record {
      reads = λ t other h. read_at-Serves t addr other id min_version answer h;
      sleeps = kept;
      honest = λ t other found h e. h.agree other found e;
    }

  write_at-Serves :
      (laws : RocksLaws r) (t : Table (StorageNode D)) (node : StorageNode D) (d : D)
      (addr id content : Bytes) (v min_version : ℕ)
      → find addr t ≡ some node
      → node.store ≡ record { db = some d }
      → (write_at t addr id v content).0 ≡ true
      → v ≤ last_version
      → OnlyVersions d id v
      → min_version ≤ v
      → ((other : Bytes) (found : Bytes × ℕ)
          → other ≢ addr
          → (read_at t other id min_version).0 ≡ some found
          → found ≡ (content, v))
      → Serves addr id min_version (content, v) (write_at t addr id v content).1
  unfolding write_at
  write_at-Serves laws t node d addr id content v min_version there opened done fits only low
        others =
      let after = (write_chunk node id v content).1 in
      let wrote : (write_chunk node id v content).0 ≡ true =
        sym (rw (there, write_at) refl) ∙ done in
      let (answer, _) =
        fetch_after_write laws node d id content v min_version opened wrote fits only low in
      let now : find addr (insert addr after t) ≡ some after =
        find-insert addr addr after t ∙ rw (same_refl addr) refl in
      let served : (read_at (insert addr after t) addr id min_version).0 ≡ some (content, v) =
        read_at-answer (insert addr after t) addr id min_version
        ∙ ap (answer_of id min_version) now
        ∙ unfold answer_of in answer in
      let rest : (other : Bytes) (found : Bytes × ℕ)
          → (read_at (insert addr after t) other id min_version).0 ≡ some found
          → found ≡ (content, v) =
        λ other found e. elim (Bool-cases (same addr other)) [
          | inl same_addr ↦ some_answer (
              sym e
              ∙ ap (λ a. (read_at (insert addr after t) a id min_version).0)
                  (sym ((same_iff addr other).0 same_addr))
              ∙ served)
          | inr ne ↦
              let same_node : find other (insert addr after t) ≡ find other t =
                find-insert addr other after t ∙ rw ne refl in
              others other found (λ q. false≢true (sym ne ∙ (same_iff addr other).1 (sym q)))
                (read_at-answer t other id min_version
                  ∙ ap (answer_of id min_version) (sym same_node)
                  ∙ sym (read_at-answer (insert addr after t) other id min_version)
                  ∙ e)
        ] in
      rw (there, write_at) (record { answers = served; agree = rest })
    where
      some_answer : {x y : Bytes × ℕ} → some x ≡ some y → x ≡ y
      some_answer q = cc

  -- After a write to a storage node that answers ok, of a version of at most ten digits that none on
  -- the node exceeds (the node's keys below the chunk's prefix are those of its versions, so it has
  -- no chunk whose id continues this one by a slash): a client's read of up to that version returns
  -- the data that was written, and its version. The coordinator replies with ok and names the node,
  -- each time with its address; the client's stub of the node, if it has one, is for that address;
  -- no other node answers the read with anything else, and the client's pauses keep it so.
  pub get_after_write :
      {M : Type 0} ⦃coordinator : MetaNet M⦄ (laws : RocksLaws r)
      (sleep : Table (StorageNode D) → Table (StorageNode D)) (c : Client) (m : M)
      (t : Table (StorageNode D)) (node : StorageNode D) (d : D) (node_id addr id content : Bytes)
      (v min_version : ℕ) (resp : ChunkInfoResp)
      → find addr t ≡ some node
      → node.store ≡ record { db = some d }
      → (write_at t addr id v content).0 ≡ true
      → v ≤ last_version
      → OnlyVersions d id v
      → (coordinator.chunk_info m id).0 ≡ replied resp
      → resp.ok ≡ true
      → target_of min_version resp.meta ≤ v
      → has_replica_node (build_replica_try_list resp.meta) node_id ≡ true
      → All (GivesAddress node_id addr) (build_replica_try_list resp.meta)
      → addr ≢ []
      → StubFits node_id addr c
      → ((other : Bytes) (found : Bytes × ℕ)
          → other ≢ addr
          → (read_at t other id (target_of min_version resp.meta)).0 ≡ some found
          → found ≡ (content, v))
      → ((t : Table (StorageNode D))
          → Serves addr id (target_of min_version resp.meta) (content, v) t
          → Serves addr id (target_of min_version resp.meta) (content, v) (sleep t))
      → let result = (get sleep c m (write_at t addr id v content).1 id min_version).0 in
        (result.ok ≡ true) × (result.content ≡ content) × (result.version ≡ v)
  unfolding get_failed
  get_after_write laws sleep c m t node d node_id addr id content v min_version resp there opened
        done fits only told ok low listed gives given fitting others kept =
      let target = target_of min_version resp.meta in
      let t' = (write_at t addr id v content).1 in
      let serves =
        write_at-Serves laws t node d addr id content v target there opened done fits only low
          others in
      let on = Serves addr id target (content, v) in
      let up = serving_comes_up addr id target (content, v) sleep kept in
      let found =
        get-finds_replica sleep c m t' id node_id addr min_version resp on told ok listed gives
          given fitting up serves (unfold serving_comes_up in omega arith) in
      elim (get-honest sleep c m t' id min_version resp on (λ p. p ≡ (content, v)) told ok serves
        (serving_agrees addr id target (content, v) sleep kept)) [
          | inl (_, answer) ↦
              (found, ap (λ (p : Bytes × ℕ). p.0) answer, ap (λ (p : Bytes × ℕ). p.1) answer)
          | inr failed ↦ absurd (false≢true (sym (ap (λ (g : GetResult). g.ok) failed) ∙ found))
        ]
