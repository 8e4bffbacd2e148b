-- ===== src/Recovery.antt =====
-- src/meta/recovery.h and recovery.cpp: what a leader that starts takes back from the storage nodes.
pub mod Covers
pub mod Undo
use final_project_nimbusvaul.Base.{
  ℕ, zero, suc, ◌+◌, ◌-◌, List, [], ◌∷◌, ◌++◌, Option, none, some, Bytes,
}
use final_project_nimbusvaul.Rocks.{RocksDb}
use final_project_nimbusvaul.Text.Split.{split_nonempty}
use final_project_nimbusvaul.Wal.{WalEntry, WalEntryType, put_chunk, Wal, read_entry, read_from}
use final_project_nimbusvaul.Coordinator.{NodeEntry, Coordinator, get_alive_nodes}
use final_project_nimbusvaul.Replicas.{resolve_address}

-- A call of `delete_fn`.
pub record Deletion : Type 0 where
  pub address : Bytes
  pub chunk_id : Bytes

module _ {F : Type 0} where
  unfoldable pub deletions : List (NodeEntry F) → Bytes → List Bytes → List Deletion
  unfolding resolve_address
  deletions alive chunk_id [] = []
  deletions alive chunk_id (r ∷ rs) =
      (record { address = resolve_address r alive; chunk_id = chunk_id })
      ∷ deletions alive chunk_id rs

  unfoldable pub cleanup_parts : List (NodeEntry F) → List Bytes → List Deletion
  unfolding deletions
  cleanup_parts alive (chunk_id ∷ size ∷ rf ∷ version ∷ replicas ∷ _) =
      deletions alive chunk_id (split_nonempty replicas b',')
  cleanup_parts alive _ = []

  unfoldable pub cleanup_entry : List (NodeEntry F) → WalEntry → List Deletion
  unfolding cleanup_parts
  cleanup_entry alive e = elim e.type [
    | put_chunk ↦ cleanup_parts alive (split_nonempty e.payload b'|')
    | _ ↦ []
  ]

  unfoldable pub cleanup_entries : List (NodeEntry F) → List WalEntry → List Deletion
  unfolding cleanup_entry
  cleanup_entries alive [] = []
  cleanup_entries alive (e ∷ es) = cleanup_entry alive e ++ cleanup_entries alive es

module _ {F D : Type 0} ⦃db : RocksDb D⦄ where
  -- The calls of `delete_fn`, in order.
  unfoldable pub cleanup_uncommitted_puts : Wal D → Coordinator F → List Deletion
  unfolding cleanup_entries
  cleanup_uncommitted_puts w c =
      cleanup_entries (get_alive_nodes c)
        (read_from w (w.committed + 1) (w.last_index - w.committed))
