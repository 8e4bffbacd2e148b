-- ===== src/MetaRpc.antt =====
-- PutChunk of src/meta/meta_rpc.cpp. The handler is written for the leader; `if_leader` is the guard in
-- front of it and of the other handlers.
pub mod Put
use final_project_nimbusvaul.Base.{
  ℕ, ◌+◌, ◌-◌, ◌/◌, Bool, true, false, not, ◌&&◌, ◌||◌, List, [], ◌∷◌, ◌++◌, Option, none, some,
  Bytes, codes, same, ltb, leb, if◌then◌else◌, ℤ, pos, size_ltb, length, u64, ◌%◌,
}
use final_project_nimbusvaul.Rocks.{RocksDb}
use final_project_nimbusvaul.Float.{Floats}
use final_project_nimbusvaul.Wal.{WalEntryType, put_chunk, delete_chunk, node_heartbeat}
use final_project_nimbusvaul.Coordinator.{
  ChunkConfigState, stable, transitioning, ChunkEntry, NodeEntry, Coordinator, get_chunk,
  get_chunks, get_alive_nodes, next_version,
}
use final_project_nimbusvaul.Apply.{put_payload, HeartbeatReq, encode_heartbeat_payload}
use final_project_nimbusvaul.Policy.{AdaptivePolicy, record_accesses}
use final_project_nimbusvaul.Placement.{PlacementConfig, select_nodes}
use final_project_nimbusvaul.Replication.{WriteResult, ok, unavailable, timeout, Ack}
use final_project_nimbusvaul.Replicas.{
  StorageNet, is_empty, resolve_address, encode_replica_target, extract_node_id,
  write_chunk_to_replica, delete_from_all,
}
use final_project_nimbusvaul.Server.{Leader, replicate}
use final_project_nimbusvaul.Reconfig.{Cluster, Waits, reconfig}

-- The errors of the responses.
pub data RpcError : Type 0 where
  chunk_transitioning not_enough_nodes not_found quorum_unavailable : RpcError
  chunk_not_found node_id_required already_in_set not_in_set last_replica reconfig_failed : RpcError
  storage_majority_unavailable : Bytes → RpcError
  metadata_quorum_unavailable not_leader : RpcError

pub data Reply (A : Type 0) : Type 0 where
  answer : A → Reply A
  refuse : RpcError → Reply A
  -- An exception in the handler.
  thrown : Reply A

-- `if (!repl_)`: a server without the leader's parts answers NotLeader, and nothing else happens.
unfoldable pub if_leader : {S A : Type 0} → Option S → (S → Reply A × S) → Reply A × Option S
if_leader none handler = (refuse not_leader, none)
if_leader (some s) handler = let done = handler s in (done.0, some done.1)

pub record PutReq : Type 0 where
  pub chunk_id : Bytes
  pub size_bytes : ℕ
  pub desired_rf : ℤ
  pub content : Bytes

-- What the loop over the chosen nodes gathers.
pub record Stored (N : Type 0) : Type 0 where
  pub network : N
  pub replica_entries : List Bytes
  pub successful_addrs : List Bytes
  pub failed_ids : Bytes

module _ {F N : Type 0} ⦃net : StorageNet N⦄ where
  unfoldable pub store_one : List (NodeEntry F) → Bytes → ℕ → Bytes → Stored N → Bytes → Stored N
  unfolding encode_replica_target resolve_address write_chunk_to_replica extract_node_id
  store_one alive chunk_id version content st node_id =
      let entry = encode_replica_target node_id alive in
      let addr = resolve_address entry alive in
      let written = write_chunk_to_replica st.network addr chunk_id version content in
      record {
        network = written.1;
        replica_entries = st.replica_entries ++ entry ∷ [];
        successful_addrs =
            if written.0 then st.successful_addrs ++ addr ∷ [] else st.successful_addrs;
        failed_ids =
            if written.0
            then st.failed_ids
            else st.failed_ids ++ (extract_node_id entry ++ b';' ∷ []);
      }

  unfoldable pub store_all :
      List (NodeEntry F) → Bytes → ℕ → Bytes → Stored N → List Bytes → Stored N
  unfolding store_one
  store_all alive chunk_id version content st [] = st
  store_all alive chunk_id version content st (id ∷ ids) =
      store_all alive chunk_id version content (store_one alive chunk_id version content st id) ids

module _ {N : Type 0} ⦃net : StorageNet N⦄ where
  -- The data is taken back from the nodes that took it.
  unfoldable pub roll_back : Stored N → Bytes → N
  unfolding delete_from_all
  roll_back st chunk_id = delete_from_all st.network st.successful_addrs chunk_id

unfoldable pub is_transitioning : Option ChunkEntry → Bool
is_transitioning none = false
is_transitioning (some e) = elim e.config_state [ stable ↦ false | transitioning ↦ true ]

-- A majority of the replicas must take the data.
unfoldable pub has_majority : {N : Type 0} → Stored N → Bool
has_majority st = leb (length st.replica_entries / 2 + 1) (length st.successful_addrs)

module _ {F D N : Type 0} ⦃fl : Floats F⦄ ⦃db : RocksDb D⦄ ⦃net : StorageNet N⦄ where
  -- The answer after the log write.
  unfoldable pub finish_put :
      Cluster F D N
      → Stored N
      → Bytes
      → ℕ
      → Option WriteResult
      → Reply (ℕ × List Bytes) × Cluster F D N
  unfolding roll_back
  finish_put s st chunk_id version (some ok) = (answer (version, st.replica_entries), s)
  finish_put s st chunk_id version (some unavailable) =
      (refuse metadata_quorum_unavailable, record s { network = roll_back st chunk_id })
  finish_put s st chunk_id version (some timeout) =
      (refuse metadata_quorum_unavailable, record s { network = roll_back st chunk_id })
  finish_put s st chunk_id version none = (thrown, s)

  -- The second half: the log write, if the majority took the data.
  unfoldable pub commit_put :
      Cluster F D N
      → ℕ
      → List (List Ack)
      → PutReq
      → ℕ
      → Stored N
      → Reply (ℕ × List Bytes) × Cluster F D N
  unfolding finish_put has_majority
  commit_put s now polls req version st = elim (has_majority st) [
    | false ↦ (
      refuse (storage_majority_unavailable st.failed_ids),
      record s { network = roll_back st req.chunk_id },
    )
    | true ↦
        let written =
          replicate s.leader now put_chunk
            (put_payload req.chunk_id req.size_bytes req.desired_rf version st.replica_entries)
            polls in
        finish_put (record { leader = written.1; network = st.network }) st req.chunk_id version
          written.0
  ]

  -- The new version and the replica entries. The size of the choice and `desired_rf` are `int`.
  unfoldable pub put_chunk_rpc :
      Cluster F D N
      → ℕ
      → List (List Ack)
      → PlacementConfig F
      → (List (NodeEntry F) → List (NodeEntry F))
      → PutReq
      → Reply (ℕ × List Bytes) × Cluster F D N
  unfolding is_transitioning store_all commit_put
  put_chunk_rpc s now polls cfg shuffle req =
      let alive = get_alive_nodes s.leader.coord in
      let nodes = select_nodes cfg shuffle req.desired_rf alive [] in
      let version = next_version s.leader.coord req.chunk_id in
      let none_yet : Stored N = record {
        network = s.network;
        replica_entries = [];
        successful_addrs = [];
        failed_ids = [];
      } in
      elim (is_transitioning (get_chunk s.leader.coord req.chunk_id)) [
        | true ↦ (refuse chunk_transitioning, s)
        | false ↦ elim (size_ltb (length nodes) req.desired_rf) [
          | true ↦ (refuse not_enough_nodes, s)
          | false ↦
              commit_put s now polls req version
                (store_all alive req.chunk_id version req.content none_yet nodes)
        ]
      ]
