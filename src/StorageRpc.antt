-- ===== src/StorageRpc.antt =====
-- src/storage/storage_rpc.cpp and the access counts of stats_reporter.cpp: a storage node's calls.
pub mod Fetch
use final_project_nimbusvaul.Base.{
  ℕ, ◌+◌, ◌%◌, Bool, true, false, List, [], ◌∷◌, Option, none, some, Bytes, ltb, if◌then◌else◌, u64,
}
use final_project_nimbusvaul.Base.Table.{Table, find, insert}
use final_project_nimbusvaul.Rocks.{RocksDb}
use final_project_nimbusvaul.ChunkStore.{ChunkStore, write, read, remove}
use final_project_nimbusvaul.Stream.{Piece, stream}

-- `StatsReporter`: the counts since the last heartbeat, and the chunks the leader assigned last.
pub record Reporter : Type 0 where
  pub access_counts : Table ℕ
  pub assigned_chunk_ids : List Bytes
  pub has_assignment_snapshot : Bool

pub record StorageNode (D : Type 0) : Type 0 where
  pub store : ChunkStore D
  pub reporter : Reporter

unfoldable pub record_access : Reporter → Bytes → Reporter
record_access r chunk_id = record r {
  access_counts =
      insert chunk_id (elim (find chunk_id r.access_counts) [ none ↦ 1 | some n ↦ (n + 1) % u64 ])
        r.access_counts;
}

-- The counts that a heartbeat sends, and the reporter after it; `reply` is the list of assigned
-- chunks, or `none` when the call failed.
unfoldable pub report : Reporter → Option (List Bytes) → Table ℕ × Reporter
report r none = (r.access_counts, record r { access_counts = [] })
report r (some assigned) = (
  r.access_counts,
  record { access_counts = []; assigned_chunk_ids = assigned; has_assignment_snapshot = true },
)

-- The messages: the loop's, or one without data.
unfoldable pub messages : ℕ → Bytes → List Piece
unfolding stream
messages version [] = (record { content = []; stamp = version; is_last = true }) ∷ []
messages version (b ∷ content) = stream version (b ∷ content)

module _ {D : Type 0} ⦃r : RocksDb D⦄ where
  unfoldable pub write_chunk : StorageNode D → Bytes → ℕ → Bytes → Bool × StorageNode D
  write_chunk n chunk_id version content =
      let written = write n.store chunk_id version content in
      (written.0, record n { store = written.1 })

  -- The data and its version; `none` is a response that is not ok.
  unfoldable pub read_chunk : StorageNode D → Bytes → ℕ → Option (Bytes × ℕ) × StorageNode D
  unfolding record_access
  read_chunk n chunk_id min_version = elim (read n.store chunk_id min_version) [
    | none ↦ (none, n)
    | some (content, version) ↦
        if ltb version min_version
        then (none, n)
        else (some (content, version), record n { reporter = record_access n.reporter chunk_id })
  ]

  -- The messages of the stream; `none` is the status NOT_FOUND.
  unfoldable pub fetch_chunk : StorageNode D → Bytes → ℕ → Option (List Piece) × StorageNode D
  unfolding record_access messages
  fetch_chunk n chunk_id min_version = elim (read n.store chunk_id min_version) [
    | none ↦ (none, n)
    | some (content, version) ↦ if ltb version min_version then (none, n) else (
      some (messages version content),
      record n { reporter = record_access n.reporter chunk_id },
    )
  ]

  unfoldable pub delete_chunk_data : StorageNode D → Bytes → Bool × StorageNode D
  delete_chunk_data n chunk_id =
      let removed = remove n.store chunk_id in (removed.0, record n { store = removed.1 })
