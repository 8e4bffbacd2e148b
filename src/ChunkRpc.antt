-- ===== src/ChunkRpc.antt =====
-- The other calls of the coordinator's clients in src/meta/meta_rpc.cpp, on the leader.
use final_project_nimbusvaul.Base.{
  ℕ, ◌+◌, ◌-◌, Bool, true, false, ◌||◌, List, [], ◌∷◌, Option, none, some, Bytes, same, leb,
  if◌then◌else◌, pos, length,
}
use final_project_nimbusvaul.Base.Table.{Table}
use final_project_nimbusvaul.Rocks.{RocksDb}
use final_project_nimbusvaul.Float.{Floats}
use final_project_nimbusvaul.Wal.{delete_chunk, node_heartbeat}
use final_project_nimbusvaul.Coordinator.{
  ChunkEntry, NodeEntry, Coordinator, get_chunk, get_chunks, get_alive_nodes,
}
use final_project_nimbusvaul.Apply.{HeartbeatReq, encode_heartbeat_payload}
use final_project_nimbusvaul.Policy.{AdaptivePolicy, record_accesses}
use final_project_nimbusvaul.Placement.{PlacementConfig}
use final_project_nimbusvaul.Replication.{ok, unavailable, timeout, Ack}
use final_project_nimbusvaul.Replicas.{StorageNet, is_empty, encode_replica_target, extract_node_id}
use final_project_nimbusvaul.Server.{Leader, replicate}
use final_project_nimbusvaul.Reconfig.{Cluster, Waits, reconfig}
use final_project_nimbusvaul.MetaRpc.{
  Reply, answer, refuse, thrown, not_found, quorum_unavailable, chunk_not_found, node_id_required,
  already_in_set, not_in_set, last_replica, reconfig_failed,
}

unfoldable pub has_replica_node : List Bytes → Bytes → Bool
unfolding extract_node_id
has_replica_node [] node_id = false
has_replica_node (e ∷ es) node_id = same (extract_node_id e) node_id || has_replica_node es node_id

-- The chunks that the node holds, by their replica sets.
unfoldable pub assigned_chunks : Bytes → List ChunkEntry → List Bytes
unfolding has_replica_node
assigned_chunks node_id [] = []
assigned_chunks node_id (c ∷ cs) =
    let rest = assigned_chunks node_id cs in
    if has_replica_node c.replica_set node_id then c.chunk_id ∷ rest else rest

module _ {F : Type 0} where
  unfoldable pub encode_targets : List Bytes → List (NodeEntry F) → List Bytes
  unfolding encode_replica_target
  encode_targets [] alive = []
  encode_targets (n ∷ ns) alive = encode_replica_target n alive ∷ encode_targets ns alive

  -- The entry, its replicas completed by the addresses known now.
  unfoldable pub get_chunk_info : Coordinator F → Bytes → Reply ChunkEntry
  unfolding encode_targets
  get_chunk_info c chunk_id = elim (get_chunk c chunk_id) [
    | none ↦ refuse not_found
    | some e ↦ answer (record e {
      replica_set = encode_targets e.replica_set (get_alive_nodes c);
      old_replica_set = encode_targets e.old_replica_set (get_alive_nodes c);
    })
  ]

module _ {F : Type 0} ⦃fl : Floats F⦄ where
  unfoldable pub record_counts : AdaptivePolicy F → Table ℕ → AdaptivePolicy F
  unfolding record_accesses
  record_counts p [] = p
  record_counts p ((chunk_id, count) ∷ counts) =
      record_counts (record_accesses p chunk_id count) counts

  unfoldable pub record_if : Option (AdaptivePolicy F) → Table ℕ → Option (AdaptivePolicy F)
  unfolding record_counts
  record_if none counts = none
  record_if (some p) counts = some (record_counts p counts)

module _ {F D : Type 0} ⦃fl : Floats F⦄ ⦃db : RocksDb D⦄ where
  unfoldable pub delete_chunk_rpc :
      Leader F D → ℕ → List (List Ack) → Bytes → Reply Unit × Leader F D
  delete_chunk_rpc l now polls chunk_id =
      let written = replicate l now delete_chunk chunk_id polls in
      (
        elim written.0 [
          | none ↦ thrown
          | some ok ↦ answer tt
          | some unavailable ↦ refuse quorum_unavailable
          | some timeout ↦ refuse quorum_unavailable
        ],
        written.1,
      )

  -- The chunks that are assigned to the node. The policy hears of the accesses only if the log took
  -- the heartbeat; where it did not, the counts are lost.
  unfoldable pub node_heartbeat_rpc :
      Leader F D
      → Option (AdaptivePolicy F)
      → ℕ
      → List (List Ack)
      → HeartbeatReq F
      → Reply (List Bytes) × Leader F D × Option (AdaptivePolicy F)
  unfolding record_if assigned_chunks
  node_heartbeat_rpc l policy now polls req =
      let written = replicate l now node_heartbeat (encode_heartbeat_payload req) polls in
      elim written.0 [
        | none ↦ (thrown, written.1, policy)
        | some ok ↦ (
          answer (assigned_chunks req.node_id (get_chunks written.1.coord)),
          written.1,
          record_if policy req.chunk_access_counts,
        )
        | some unavailable ↦ (refuse quorum_unavailable, written.1, policy)
        | some timeout ↦ (refuse quorum_unavailable, written.1, policy)
      ]

unfoldable pub of_reconfig : Option Bool → Reply Unit
of_reconfig none = thrown
of_reconfig (some false) = refuse reconfig_failed
of_reconfig (some true) = answer tt

module _ {F D N : Type 0} ⦃fl : Floats F⦄ ⦃db : RocksDb D⦄ ⦃net : StorageNet N⦄ where
  unfoldable pub add_replica :
      Cluster F D N
      → Waits
      → PlacementConfig F
      → (List (NodeEntry F) → List (NodeEntry F))
      → Bytes
      → Bytes
      → Reply Unit × Cluster F D N
  unfolding is_empty has_replica_node of_reconfig reconfig
  add_replica s w cfg shuffle chunk_id node_id = elim (get_chunk s.leader.coord chunk_id) [
    | none ↦ (refuse chunk_not_found, s)
    | some e ↦ elim (is_empty node_id) [
      | true ↦ (refuse node_id_required, s)
      | false ↦ elim (has_replica_node e.replica_set node_id) [
        | true ↦ (refuse already_in_set, s)
        | false ↦
            let done =
              reconfig s w cfg shuffle chunk_id (pos (length e.replica_set + 1)) node_id [] in
            (of_reconfig done.0, done.1)
      ]
    ]
  ]

  unfoldable pub remove_replica :
      Cluster F D N
      → Waits
      → PlacementConfig F
      → (List (NodeEntry F) → List (NodeEntry F))
      → Bytes
      → Bytes
      → Reply Unit × Cluster F D N
  unfolding is_empty has_replica_node of_reconfig reconfig
  remove_replica s w cfg shuffle chunk_id node_id = elim (get_chunk s.leader.coord chunk_id) [
    | none ↦ (refuse chunk_not_found, s)
    | some e ↦ elim (leb (length e.replica_set) 1) [
      | true ↦ (refuse last_replica, s)
      | false ↦ elim (is_empty node_id) [
        | true ↦ (refuse node_id_required, s)
        | false ↦ elim (has_replica_node e.replica_set node_id) [
          | false ↦ (refuse not_in_set, s)
          | true ↦
              let done =
                reconfig s w cfg shuffle chunk_id (pos (length e.replica_set - 1)) [] node_id in
              (of_reconfig done.0, done.1)
        ]
      ]
    ]
  ]
