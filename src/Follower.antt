-- ===== src/Follower.antt =====
-- src/meta/meta_follower.h and meta_follower.cpp, and the AppendEntry and CommitEntry handlers of
-- src/meta/meta_rpc.cpp: a server that follows the leader's log.
pub mod Lost
pub mod Prefix
use final_project_nimbusvaul.Base.{
  ℕ, ◌+◌, ◌%◌, Bool, true, false, not, ◌||◌, ◌&&◌, Option, none, some, Bytes, same, ltb, ◌==◌,
  if◌then◌else◌, u64,
}
use final_project_nimbusvaul.Rocks.{RocksDb}
use final_project_nimbusvaul.Wal.{
  WalEntryType, type_byte, WalEntry, Wal, append, commit, read_entry,
}

pub record Follower (D : Type 0) : Type 0 where
  pub wal : Wal D
  pub current_term : ℕ
  pub snapshot_lsn : ℕ

-- The fields of AppendEntryReq that the follower reads.
pub record AppendEntryReq : Type 0 where
  pub leader_term : ℕ
  pub prev_log_index : ℕ
  pub entry : WalEntry

abbrev pub same_entry : WalEntry → WalEntry → Bool
same_entry a b =
    a.term == b.term && (type_byte a.type == type_byte b.type && same a.payload b.payload)

-- The answer to an entry at an index that the log has already.
unfoldable pub on_existing : Option WalEntry → WalEntry → Bool
unfolding same type_byte
on_existing none e = true
on_existing (some existing) e = same_entry existing e

module _ {D : Type 0} ⦃db : RocksDb D⦄ where
  abbrev pub new_follower : Wal D → Follower D
  new_follower w = record { wal = w; current_term = 0; snapshot_lsn = 0 }

  -- `wal_.append` at the end of `handle_append`.
  unfoldable pub append_entry : Follower D → WalEntry → Option Bool × Follower D
  append_entry f e =
      let appended = append f.wal e.type e.term e.payload in
      (elim appended.0 [ none ↦ none | some _ ↦ some true ], record f { wal = appended.1 })

  -- The answer of the handler; `none` is the exception of the log. The whole call is one step: the
  -- handler holds no lock, and calls of it that run at the same time are not modelled.
  unfoldable pub handle_append : Follower D → AppendEntryReq → Option Bool × Follower D
  unfolding append_entry on_existing
  handle_append f req =
      let f' : Follower D = record f { current_term = req.leader_term } in
      let local_last = f.wal.last_index in
      let e = req.entry in
      if ltb req.leader_term f.current_term
      then (some false, f)
      else if not (ltb local_last e.log_index)
      then (some (on_existing (read_entry f.wal e.log_index) e), f')
      else if ltb ((local_last + 1) % u64) e.log_index
      then (some false, f')
      else if not (req.prev_log_index == local_last)
      then (some false, f')
      else append_entry f' e

  -- The index that `on_commit` is called with, if it is called.
  unfoldable pub handle_commit : Follower D → ℕ → Option ℕ × Follower D
  handle_commit f log_index =
      if ltb f.wal.last_index log_index
      then (none, f)
      else (some log_index, record f { wal = commit f.wal log_index })

  unfoldable pub install_snapshot : Follower D → ℕ → Follower D
  install_snapshot f lsn = if ltb lsn f.snapshot_lsn then f else record f { snapshot_lsn = lsn }

  unfoldable pub catch_up_from : Follower D → ℕ
  catch_up_from f = (f.wal.committed + 1) % u64

  -- The AppendEntry handler: whether it succeeded, and the follower's term.
  unfoldable pub append_entry_rpc : Follower D → AppendEntryReq → Option (Bool × ℕ) × Follower D
  unfolding handle_append
  append_entry_rpc f req =
      let handled = handle_append f req in
      (elim handled.0 [ none ↦ none | some ok ↦ some (ok, handled.1.current_term) ], handled.1)
