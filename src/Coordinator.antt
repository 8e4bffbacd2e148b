-- ===== src/Coordinator.antt =====
-- src/meta/meta_coordinator.h and meta_coordinator.cpp: the chunk table and the node table. A
-- method runs under the coordinator's lock, so each is one step; the clock is an argument.
pub mod Lookup
pub mod Invariant
pub mod Nodes
use final_project_nimbusvaul.Base.{
  ℕ, zero, suc, ◌+◌, ◌-◌, ◌%◌, Bool, true, false, ◌&&◌, List, [], ◌∷◌, Option, none, some, Bytes,
  ltb, if◌then◌else◌, ℤ, pos, u64, length,
}
use final_project_nimbusvaul.Base.Table.{Table, find, insert, erase, values}

pub data ChunkConfigState : Type 0 where
  stable transitioning : ChunkConfigState

pub record ChunkEntry : Type 0 where
  pub chunk_id : Bytes
  pub version : ℕ
  pub replica_set : List Bytes
  pub replication_factor : ℤ
  pub config_state : ChunkConfigState
  pub old_replica_set : List Bytes
  pub size_bytes : ℕ

pub record NodeEntry (F : Type 0) : Type 0 where
  pub node_id : Bytes
  pub address : Bytes
  pub load_fraction : F
  pub free_bytes : ℕ
  pub total_bytes : ℕ
  pub failure_rate_7d : F
  pub last_seen_ms : ℕ
  pub alive : Bool

pub record Coordinator (F : Type 0) : Type 0 where
  pub chunk_table : Table ChunkEntry
  pub node_table : Table (NodeEntry F)

unfoldable pub insert_chunks : List ChunkEntry → Table ChunkEntry → Table ChunkEntry
insert_chunks [] t = t
insert_chunks (e ∷ es) t = insert_chunks es (insert e.chunk_id e t)

module _ {F : Type 0} where
  abbrev pub fresh : Coordinator F
  fresh = record { chunk_table = []; node_table = [] }

  -- Every field of the entry is written, so an old entry of the chunk leaves no trace.
  unfoldable pub apply_put_chunk : Coordinator F → Bytes → ℕ → ℤ → List Bytes → ℕ → Coordinator F
  apply_put_chunk c chunk_id size_bytes desired_rf replica_set version = record c {
    chunk_table =
        insert chunk_id
          (record {
            chunk_id = chunk_id;
            version = version;
            replica_set = replica_set;
            replication_factor = desired_rf;
            config_state = stable;
            old_replica_set = [];
            size_bytes = size_bytes;
          })
          c.chunk_table;
  }

  unfoldable pub apply_delete_chunk : Coordinator F → Bytes → Coordinator F
  apply_delete_chunk c chunk_id = record c { chunk_table = erase chunk_id c.chunk_table }

  unfoldable pub apply_reconfig_start :
      Coordinator F → Bytes → List Bytes → List Bytes → Coordinator F
  apply_reconfig_start c chunk_id old_set new_set = elim (find chunk_id c.chunk_table) [
    | none ↦ c
    | some e ↦ record c {
      chunk_table =
          insert chunk_id
            (record e {
              config_state = transitioning;
              replication_factor = pos (length new_set);
              old_replica_set = old_set;
              replica_set = new_set;
            })
            c.chunk_table;
    }
  ]

  unfoldable pub apply_reconfig_commit : Coordinator F → Bytes → List Bytes → Coordinator F
  apply_reconfig_commit c chunk_id new_set = elim (find chunk_id c.chunk_table) [
    | none ↦ c
    | some e ↦ record c {
      chunk_table =
          insert chunk_id
            (record e {
              config_state = stable;
              replication_factor = pos (length new_set);
              replica_set = new_set;
              old_replica_set = [];
            })
            c.chunk_table;
    }
  ]

  unfoldable pub apply_heartbeat : Coordinator F → ℕ → Bytes → Bytes → F → ℕ → ℕ → F → Coordinator F
  apply_heartbeat c now node_id address load free_bytes total_bytes fail_rate = record c {
    node_table =
        insert node_id
          (record {
            node_id = node_id;
            address = address;
            load_fraction = load;
            free_bytes = free_bytes;
            total_bytes = total_bytes;
            failure_rate_7d = fail_rate;
            last_seen_ms = now;
            alive = true;
          })
          c.node_table;
  }

  unfoldable pub get_chunk : Coordinator F → Bytes → Option ChunkEntry
  get_chunk c chunk_id = find chunk_id c.chunk_table

  unfoldable pub get_chunks : Coordinator F → List ChunkEntry
  get_chunks c = values c.chunk_table

  unfoldable pub get_nodes : Coordinator F → List (NodeEntry F)
  get_nodes c = values c.node_table

  unfoldable pub alive_only : List (NodeEntry F) → List (NodeEntry F)
  alive_only [] = []
  alive_only (n ∷ ns) = let rest = alive_only ns in if n.alive then n ∷ rest else rest

  unfoldable pub get_alive_nodes : Coordinator F → List (NodeEntry F)
  unfolding alive_only
  get_alive_nodes c = alive_only (values c.node_table)

  unfoldable pub insert_nodes : List (NodeEntry F) → Table (NodeEntry F) → Table (NodeEntry F)
  insert_nodes [] t = t
  insert_nodes (n ∷ ns) t = insert_nodes ns (insert n.node_id n t)

  -- Both tables are cleared first.
  unfoldable pub restore_snapshot :
      Coordinator F → List (NodeEntry F) → List ChunkEntry → Coordinator F
  unfolding insert_nodes insert_chunks
  restore_snapshot c nodes chunks = record {
    chunk_table = insert_chunks chunks [];
    node_table = insert_nodes nodes [];
  }

  -- The age of a node is a `uint64_t` difference.
  abbrev pub age : ℕ → NodeEntry F → ℕ
  age now n = (now + u64 - n.last_seen_ms) % u64

  unfoldable pub evict_node : ℕ → ℕ → NodeEntry F → NodeEntry F
  evict_node now timeout_ms n =
      if n.alive && ltb timeout_ms (age now n) then record n { alive = false } else n

  unfoldable pub evict_table : ℕ → ℕ → Table (NodeEntry F) → Table (NodeEntry F)
  unfolding evict_node
  evict_table now timeout_ms [] = []
  evict_table now timeout_ms ((k, n) ∷ t) =
      (k, evict_node now timeout_ms n) ∷ evict_table now timeout_ms t

  unfoldable pub evict_stale_nodes : Coordinator F → ℕ → ℕ → Coordinator F
  unfolding evict_table
  evict_stale_nodes c now timeout_ms = record c {
    node_table = evict_table now timeout_ms c.node_table;
  }

  unfoldable pub next_version : Coordinator F → Bytes → ℕ
  next_version c chunk_id = elim (find chunk_id c.chunk_table) [
    | none ↦ 1
    | some e ↦ (e.version + 1) % u64
  ]
