-- ===== src/Reconfig.antt =====
-- src/meta/reconfig_driver.h and reconfig_driver.cpp: a chunk moves to another set of replicas.
pub mod Plan
pub mod Targets
pub mod Moves
pub mod Stuck
use final_project_nimbusvaul.Base.{
  ℕ, Bool, true, false, ◌||◌, List, [], ◌∷◌, Option, none, some, Bytes, ltb, if◌then◌else◌, ℤ,
}
use final_project_nimbusvaul.Rocks.{RocksDb}
use final_project_nimbusvaul.Float.{Floats}
use final_project_nimbusvaul.Wal.{reconfigure_start, reconfigure_commit}
use final_project_nimbusvaul.Coordinator.{
  ChunkConfigState, stable, transitioning, ChunkEntry, NodeEntry, get_chunk, get_alive_nodes,
}
use final_project_nimbusvaul.Apply.{encode_reconfig_start, encode_reconfig_commit}
use final_project_nimbusvaul.Placement.{PlacementConfig, member}
use final_project_nimbusvaul.Replication.{WriteResult, ok, unavailable, timeout, Ack}
use final_project_nimbusvaul.Stream.{assemble}
use final_project_nimbusvaul.Replicas.{
  StorageNet, is_empty, resolve_address, encode_entry, extract_node_id,
}
use final_project_nimbusvaul.Server.{Leader, replicate}
use final_project_nimbusvaul.Reconfig.Plan.{plan}

unfoldable pub node_ids : List Bytes → List Bytes
unfolding extract_node_id
node_ids [] = []
node_ids (e ∷ es) = extract_node_id e ∷ node_ids es

-- Whether a node's answer shows the version.
unfoldable pub has_version : ℕ → Option (Bytes × ℕ) → Bool
has_version required none = false
has_version required (some (content, version)) = if ltb version required then false else true

module _ {F : Type 0} where
  unfoldable pub encode_entries : List Bytes → List (NodeEntry F) → List Bytes
  unfolding encode_entry
  encode_entries [] alive = []
  encode_entries (id ∷ ids) alive = encode_entry id alive ∷ encode_entries ids alive

  -- The address of the first source that has one, or the empty string.
  unfoldable pub source_address : List Bytes → List (NodeEntry F) → Bytes
  unfolding resolve_address
  source_address [] alive = []
  source_address (src ∷ srcs) alive = elim (resolve_address src alive) [
    | [] ↦ source_address srcs alive
    | c ∷ addr ↦ c ∷ addr
  ]

module _ {N : Type 0} ⦃net : StorageNet N⦄ where
  -- The data of the source, written to one destination.
  unfoldable pub copy_one : N → Bytes → Bytes → Bytes → ℕ → Bool × N
  copy_one n src_addr dst_addr chunk_id version =
      let fetched = net.fetch_rpc n src_addr chunk_id version in
      elim fetched.0.1 [
        | false ↦ (false, fetched.1)
        | true ↦ net.write_rpc fetched.1 dst_addr chunk_id version (assemble fetched.0.0)
      ]

module _ {F N : Type 0} ⦃net : StorageNet N⦄ where
  unfoldable pub copy_loop :
      N → List (NodeEntry F) → List Bytes → Bytes → Bytes → ℕ → List Bytes → Bool × N
  unfolding copy_one is_empty
  copy_loop n alive src_ids src_addr chunk_id version [] = (true, n)
  copy_loop n alive src_ids src_addr chunk_id version (dst ∷ dsts) =
      elim (member (extract_node_id dst) src_ids) [
        | true ↦ copy_loop n alive src_ids src_addr chunk_id version dsts
        | false ↦ elim (is_empty src_addr || is_empty (resolve_address dst alive)) [
          | true ↦ (false, n)
          | false ↦
              let copied = copy_one n src_addr (resolve_address dst alive) chunk_id version in
              elim copied.0 [
                | false ↦ (false, copied.1)
                | true ↦ copy_loop copied.1 alive src_ids src_addr chunk_id version dsts
              ]
        ]
      ]

  unfoldable pub copy_to_new_replicas :
      N → List (NodeEntry F) → Bytes → ℕ → List Bytes → List Bytes → Bool × N
  unfolding copy_loop node_ids source_address
  copy_to_new_replicas n alive chunk_id version [] new_nodes = (true, n)
  copy_to_new_replicas n alive chunk_id version (src ∷ srcs) new_nodes =
      copy_loop n alive (node_ids (src ∷ srcs)) (source_address (src ∷ srcs) alive) chunk_id version
        new_nodes

  unfoldable pub verify_replicas : N → List (NodeEntry F) → Bytes → ℕ → List Bytes → Bool × N
  unfolding has_version is_empty
  verify_replicas n alive chunk_id required [] = (true, n)
  verify_replicas n alive chunk_id required (entry ∷ entries) =
      elim (is_empty (resolve_address entry alive)) [
        | true ↦ (false, n)
        | false ↦
            let answered = net.read_rpc n (resolve_address entry alive) chunk_id required in
            elim (has_version required answered.0) [
              | false ↦ (false, answered.1)
              | true ↦ verify_replicas answered.1 alive chunk_id required entries
            ]
      ]

-- The acks that come in during the two log writes, and the time that the entries are applied at.
pub record Waits : Type 0 where
  pub now : ℕ
  pub start_polls : List (List Ack)
  pub commit_polls : List (List Ack)

-- The leader with the storage network.
pub record Cluster (F D N : Type 0) : Type 0 where
  pub leader : Leader F D
  pub network : N

module _ {F D N : Type 0} ⦃fl : Floats F⦄ ⦃db : RocksDb D⦄ ⦃net : StorageNet N⦄ where
  -- Step 5 and its answer.
  unfoldable pub commit_reconfig :
      Cluster F D N → Waits → Bytes → List Bytes → Option Bool × Cluster F D N
  commit_reconfig s w chunk_id new_nodes =
      let written =
        replicate s.leader w.now reconfigure_commit (encode_reconfig_commit chunk_id new_nodes)
          w.commit_polls in
      (
        elim written.0 [
          | none ↦ none
          | some ok ↦ some true
          | some unavailable ↦ some false
          | some timeout ↦ some false
        ],
        record s { leader = written.1 },
      )

  -- Steps 3 to 5.
  unfoldable pub move_data :
      Cluster F D N → Waits → Bytes → ℕ → List Bytes → List Bytes → Option Bool × Cluster F D N
  unfolding commit_reconfig copy_to_new_replicas verify_replicas
  move_data s w chunk_id version old_set new_nodes =
      let alive = get_alive_nodes s.leader.coord in
      let copied = copy_to_new_replicas s.network alive chunk_id version old_set new_nodes in
      let s1 : Cluster F D N = record s { network = copied.1 } in
      elim copied.0 [
        | false ↦ (some false, s1)
        | true ↦
            let verified = verify_replicas copied.1 alive chunk_id version new_nodes in
            let s2 : Cluster F D N = record s { network = verified.1 } in
            elim verified.0 [
              | false ↦ (some false, s2)
              | true ↦ commit_reconfig s2 w chunk_id new_nodes
            ]
      ]

  -- Steps 1 and 2, then the rest.
  unfoldable pub start_reconfig :
      Cluster F D N → Waits → Bytes → ℕ → List Bytes → List Bytes → Option Bool × Cluster F D N
  unfolding move_data
  start_reconfig s w chunk_id version old_set new_nodes =
      let written =
        replicate s.leader w.now reconfigure_start
          (encode_reconfig_start chunk_id old_set new_nodes) w.start_polls in
      let s' : Cluster F D N = record s { leader = written.1 } in
      elim written.0 [
        | none ↦ (none, s')
        | some ok ↦ move_data s' w chunk_id version old_set new_nodes
        | some unavailable ↦ (some false, s')
        | some timeout ↦ (some false, s')
      ]

  unfoldable pub reconfig_stable :
      Cluster F D N
      → Waits
      → PlacementConfig F
      → (List (NodeEntry F) → List (NodeEntry F))
      → ChunkEntry
      → ChunkConfigState
      → Bytes
      → ℤ
      → Bytes
      → Bytes
      → Option Bool × Cluster F D N
  unfolding start_reconfig encode_entries plan
  reconfig_stable s w cfg shuffle entry transitioning chunk_id new_rf inc exc = (some false, s)
  reconfig_stable s w cfg shuffle entry stable chunk_id new_rf inc exc =
      let alive = get_alive_nodes s.leader.coord in
      elim (plan cfg shuffle alive entry.replica_set new_rf inc exc) [
        | none ↦ (some false, s)
        | some ids ↦
            start_reconfig s w chunk_id entry.version entry.replica_set (encode_entries ids alive)
      ]

  -- `inc` and `exc` are the node that must be in the new set and the one that must not, or empty;
  -- `none` is an exception.
  unfoldable pub reconfig :
      Cluster F D N
      → Waits
      → PlacementConfig F
      → (List (NodeEntry F) → List (NodeEntry F))
      → Bytes
      → ℤ
      → Bytes
      → Bytes
      → Option Bool × Cluster F D N
  unfolding reconfig_stable
  reconfig s w cfg shuffle chunk_id new_rf inc exc = elim (get_chunk s.leader.coord chunk_id) [
    | none ↦ (some false, s)
    | some entry ↦ reconfig_stable s w cfg shuffle entry entry.config_state chunk_id new_rf inc exc
  ]
