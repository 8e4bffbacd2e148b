-- ===== src/Server.antt =====
-- The leader as src/bin/meta_server.cpp puts it together: the coordinator, the log with its
-- replication, and the `on_commit` callback.
pub mod Commits
use final_project_nimbusvaul.Base.{ℕ, List, Option, none, some, Bytes}
use final_project_nimbusvaul.Rocks.{RocksDb}
use final_project_nimbusvaul.Float.{Floats}
use final_project_nimbusvaul.Wal.{WalEntryType, read_entry, replay, Wal}
use final_project_nimbusvaul.Coordinator.{Coordinator, fresh}
use final_project_nimbusvaul.Apply.{apply_wal_entry, apply_entries}
use final_project_nimbusvaul.Replication.{
  Replication, WriteResult, ok, unavailable, timeout, Ack, write,
}

pub record Leader (F D : Type 0) : Type 0 where
  pub coord : Coordinator F
  pub repl : Replication D

module _ {F D : Type 0} ⦃fl : Floats F⦄ ⦃db : RocksDb D⦄ where
  -- The callback: an entry that is missing is passed over; `none` is an exception.
  unfoldable pub on_commit : Wal D → Coordinator F → ℕ → ℕ → Option (Coordinator F)
  on_commit w c now idx = elim (read_entry w idx) [
    | none ↦ some c
    | some e ↦ apply_wal_entry c now e
  ]

  unfoldable pub after_write :
      Leader F D → ℕ → ℕ → Replication D → WriteResult → Option WriteResult × Leader F D
  unfolding on_commit
  after_write l now idx repl ok = elim (on_commit repl.wal l.coord now idx) [
    | none ↦ (none, record l { repl = repl })
    | some c ↦ (some ok, record { coord = c; repl = repl })
  ]
  after_write l now idx repl unavailable = (some unavailable, record l { repl = repl })
  after_write l now idx repl timeout = (some timeout, record l { repl = repl })

  -- `repl_.write`; `none` is an exception, `polls` the acks that come in while it waits.
  unfoldable pub replicate :
      Leader F D → ℕ → WalEntryType → Bytes → List (List Ack) → Option WriteResult × Leader F D
  unfolding after_write
  replicate l now type payload polls =
      let written = write l.repl type payload polls in
      elim written.0 [
        | none ↦ (none, record l { repl = written.1 })
        | some (result, idx) ↦ after_write l now idx written.1 result
      ]

  -- The coordinator of a server that starts.
  unfoldable pub start : Wal D → ℕ → Option (Coordinator F)
  start w now = apply_entries fresh now (replay w)
