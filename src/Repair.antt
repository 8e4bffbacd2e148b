-- ===== src/Repair.antt =====
-- src/storage/replica_repair.cpp: a storage node fetches the versions it lacks of its chunks, and
-- drops the chunks that are not its own.
pub mod Peers
pub mod Sync
pub mod Rounds
use final_project_nimbusvaul.Base.{
  ℕ, Bool, true, false, not, ◌&&◌, ◌||◌, List, [], ◌∷◌, ◌++◌, Option, none, some, Bytes, same, ltb,
  leb, if◌then◌else◌, length, ◌==◌,
}
use final_project_nimbusvaul.Text.Split.{split_eq}
use final_project_nimbusvaul.Rocks.{RocksDb}
use final_project_nimbusvaul.Placement.{member}
use final_project_nimbusvaul.Stream.{Piece}
use final_project_nimbusvaul.ChunkStore.{ChunkStore, write, remove, latest_version, list_chunk_ids}
use final_project_nimbusvaul.StorageRpc.{StorageNode}
use final_project_nimbusvaul.Replicas.{StorageNet, is_empty}
use final_project_nimbusvaul.Client.{Call, broken, replied, MetaNet, ChunkInfoResp}

-- The configuration's id and address, the flag `stopped_`, and the node that is repaired.
pub record ReplicaRepair (D : Type 0) : Type 0 where
  pub node_id : Bytes
  pub address : Bytes
  pub stopped : Bool
  pub node : StorageNode D

-- The node id and the address; `none` is the return value `false`.
unfoldable pub parse_replica_endpoint : Bytes → Option (Bytes × Bytes)
unfolding split_eq is_empty
parse_replica_endpoint entry = elim (split_eq entry) [
  | none ↦ some (entry, [])
  | some (node_id, address) ↦ if is_empty node_id then none else some (node_id, address)
]

-- `data`, `streamed_version` and `received`.
pub record Streamed : Type 0 where
  pub content : Bytes
  pub streamed_version : ℕ
  pub received : Bool

unfoldable pub read_piece : Streamed → Piece → Streamed
read_piece f p = record {
  content = f.content ++ p.content;
  streamed_version = if ltb f.streamed_version p.stamp then p.stamp else f.streamed_version;
  received = true;
}

-- `while (reader->Read(&piece))`.
unfoldable pub read_pieces : Streamed → List Piece → Streamed
unfolding read_piece
read_pieces f [] = f
read_pieces f (p ∷ ps) =
    let more = read_pieces (read_piece f p) ps in if p.is_last then read_piece f p else more

abbrev pub nothing_read : Streamed
nothing_read = record { content = []; streamed_version = 0; received = false }

-- The data and the version; `none` is the return value `false`.
unfoldable pub accept : ℕ → List Piece × Bool → Option (Bytes × ℕ)
unfolding read_pieces
accept target_version (ps, finished) =
    let f = read_pieces nothing_read ps in
    if not finished || not f.received || ltb f.streamed_version target_version
    then none
    else some (f.content, f.streamed_version)

-- The address to fetch from; `none` where the loop goes on to the next replica.
unfoldable pub peer_of : Bytes → Bytes → Bytes → Option Bytes
unfolding parse_replica_endpoint is_empty
peer_of node_id address replica = elim (parse_replica_endpoint replica) [
  | none ↦ none
  | some (peer_id, peer_addr) ↦
      if is_empty peer_addr || same peer_id node_id || same peer_addr address
      then none
      else some peer_addr
]

module _ {N : Type 0} ⦃net : StorageNet N⦄ where
  -- The stub of an address is opened at its first use and stays; the network finds it by address.
  unfoldable pub fetch_from_peer : N → Bytes → Bytes → ℕ → Option (Bytes × ℕ) × N
  unfolding accept
  fetch_from_peer n peer_addr chunk_id target_version =
      let called = net.fetch_rpc n peer_addr chunk_id target_version in
      (accept target_version called.0, called.1)

  unfoldable pub fetch_from_any :
      Bytes → Bytes → N → Bytes → ℕ → List Bytes → Option (Bytes × ℕ) × N
  unfolding peer_of fetch_from_peer
  fetch_from_any node_id address n chunk_id target_version [] = (none, n)
  fetch_from_any node_id address n chunk_id target_version (replica ∷ replicas) =
      let skipped = fetch_from_any node_id address n chunk_id target_version replicas in
      elim (peer_of node_id address replica) [
        | none ↦ skipped
        | some peer_addr ↦
            let fetched = fetch_from_peer n peer_addr chunk_id target_version in
            let more = fetch_from_any node_id address fetched.1 chunk_id target_version replicas in
            elim fetched.0 [ none ↦ more | some repaired ↦ fetched ]
      ]

module _ {D : Type 0} ⦃r : RocksDb D⦄ where
  unfoldable pub write_repaired : ChunkStore D → Bytes → Option (Bytes × ℕ) → ChunkStore D
  write_repaired s chunk_id none = s
  write_repaired s chunk_id (some (content, version)) = (write s chunk_id version content).1

  unfoldable pub remove_unassigned : List Bytes → ChunkStore D → List Bytes → ChunkStore D
  remove_unassigned assigned s [] = s
  remove_unassigned assigned s (chunk_id ∷ ids) =
      remove_unassigned assigned (if member chunk_id assigned then s else (remove s chunk_id).1) ids

  module _ {M N : Type 0} ⦃coordinator : MetaNet M⦄ ⦃net : StorageNet N⦄ where
    unfoldable pub repair_chunk :
        Bytes → Bytes → ChunkStore D → M → N → Bytes → ChunkStore D × M × N
    unfolding fetch_from_any write_repaired
    repair_chunk node_id address s m n chunk_id =
        let called = coordinator.chunk_info m chunk_id in
        elim called.0 [
          | broken message ↦ (s, called.1, n)
          | replied resp ↦
              if not resp.ok || leb resp.meta.version (latest_version s chunk_id)
              then (s, called.1, n)
              else (let fetched =
                    fetch_from_any node_id address n chunk_id resp.meta.version
                      resp.meta.replica_set in
                  (write_repaired s chunk_id fetched.0, called.1, fetched.1))
        ]

    unfoldable pub repair_chunks :
        Bytes → Bytes → ChunkStore D → M → N → List Bytes → ChunkStore D × M × N
    unfolding repair_chunk
    repair_chunks node_id address s m n [] = (s, m, n)
    repair_chunks node_id address s m n (chunk_id ∷ ids) =
        let done = repair_chunk node_id address s m n chunk_id in
        repair_chunks node_id address done.0 done.1 done.2 ids

    -- `walk` is the order in which the set of the assigned ids is walked, each once.
    unfoldable pub run_once :
        (List Bytes → List Bytes) → ReplicaRepair D → M → N → ReplicaRepair D × M × N
    unfolding repair_chunks remove_unassigned
    run_once walk p m n =
        let assigned = p.node.reporter.assigned_chunk_ids in
        let done = repair_chunks p.node_id p.address p.node.store m n (walk assigned) in
        if p.stopped || not p.node.reporter.has_assignment_snapshot || length assigned == 0
        then (p, m, n)
        else (
          record p {
            node = record p.node {
              store = remove_unassigned assigned done.0 (list_chunk_ids done.0);
            };
          },
          done.1,
          done.2,
        )

unfoldable pub stop : {D : Type 0} → ReplicaRepair D → ReplicaRepair D
stop p = record p { stopped = true }
