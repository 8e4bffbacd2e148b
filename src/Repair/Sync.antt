-- ===== src/Repair/Sync.antt =====
-- A chunk that lags behind is brought up to the coordinator's version.
use final_project_nimbusvaul.Base.{
  ℕ, ◌≤◌, ◌<◌, ◌≡◌, ◌≢◌, refl, sym, true, List, ◌∷◌, ◌++◌, none, some, Bytes, arith, Option-cases,
  inl, inr, lt→leb-false, subst,
}
use final_project_nimbusvaul.Rocks.{RocksDb, RocksLaws}
use final_project_nimbusvaul.ChunkStore.{write_db, read, latest_version, last_version, make_key}
use final_project_nimbusvaul.ChunkStore.Latest.{OnlyVersions, read_after_write}
use final_project_nimbusvaul.Replicas.{StorageNet}
use final_project_nimbusvaul.Client.{replied, MetaNet, ChunkInfoResp}
use final_project_nimbusvaul.Repair.{accept, peer_of, fetch_from_any, write_repaired, repair_chunk}
use final_project_nimbusvaul.Repair.Peers.{
  accept_fresh, fetch_from_any-accepted, fetch_from_any-finds,
}

module _ {D M N : Type 0} ⦃r : RocksDb D⦄ ⦃coordinator : MetaNet M⦄ ⦃net : StorageNet N⦄ where
  -- The coordinator knows a newer version, no write fails, and a peer that is asked has it: after
  -- the repair of the chunk the node's latest version is the one that the fetch got, which some peer
  -- streamed and which is not below the coordinator's, and a read of the coordinator's version gives
  -- the data that was fetched with it. The node's keys below the chunk's prefix are those of its
  -- versions up to the coordinator's (so it has no chunk whose id continues this one by a slash), and
  -- the peers' versions have at most ten digits.
  pub repair_chunk-catches_up :
      (laws : RocksLaws r) (node_id address : Bytes) (d : D) (m : M) (n : N) (id : Bytes)
      (resp : ChunkInfoResp) (before after : List Bytes) (replica addr : Bytes)
      → ((d : D) (k v : Bytes) → (r.put d k v).0 ≡ true)
      → OnlyVersions d id resp.meta.version
      → (coordinator.chunk_info m id).0 ≡ replied resp
      → resp.ok ≡ true
      → latest_version (record { db = some d }) id < resp.meta.version
      → resp.meta.replica_set ≡ before ++ replica ∷ after
      → peer_of node_id address replica ≡ some addr
      → ((n : N) → accept resp.meta.version (net.fetch_rpc n addr id resp.meta.version).0 ≢ none)
      → ((n : N) (peer content : Bytes) (v : ℕ)
          → accept resp.meta.version (net.fetch_rpc n peer id resp.meta.version).0
            ≡ some (content, v)
          → v ≤ last_version)
      → let s = (repair_chunk node_id address (record { db = some d }) m n id).0 in
        (content : Bytes) × (v : ℕ) × (n' : N) × (peer : Bytes) × (resp.meta.version ≤ v)
        × ((fetch_from_any node_id address n id resp.meta.version resp.meta.replica_set).0
            ≡ some (content, v))
        × (accept resp.meta.version (net.fetch_rpc n' peer id resp.meta.version).0
            ≡ some (content, v))
        × (latest_version s id ≡ v)
        × (read s id resp.meta.version ≡ some (content, v))
  unfolding repair_chunk write_repaired
  repair_chunk-catches_up laws node_id address d m n id resp before after replica addr no_failure
        only told ok behind listed asked has fits =
      let target = resp.meta.version in
      let fetched = fetch_from_any node_id address n id target resp.meta.replica_set in
      elim (Option-cases fetched.0) [
        | inl nothing ↦ absurd (
            subst (λ es. (fetch_from_any node_id address n id target es).0 ≢ none) (sym listed)
              (fetch_from_any-finds node_id address id target before after replica addr asked has n)
              nothing)
        | inr ((content, v), got) ↦
            let (n', peer, other, accepted) =
              fetch_from_any-accepted node_id address id target resp.meta.replica_set n (content, v)
                got in
            let fresh =
              accept_fresh target (net.fetch_rpc n' peer id target).0 (content, v) accepted in
            let written =
              read_after_write laws d id content v target
                (unfold write_db in no_failure d (make_key id v) content)
                (fits n' peer content v accepted)
                (λ rest there. let (w, low, shape) = only rest there in (w, omega arith, shape))
                fresh in
            rw
              (
                told,
                repair_chunk,
                ok,
                lt→leb-false target (latest_version (record { db = some d }) id) behind,
                got,
                write_repaired,
              )
              (content, v, n', peer, fresh, refl, accepted, written.1, written.0)
      ]
