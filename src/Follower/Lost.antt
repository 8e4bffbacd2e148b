-- ===== src/Follower/Lost.antt =====
-- A write of the log that fails leaves an index without an entry.
use final_project_nimbusvaul.Base.{
  ◌+◌, ◌%◌, ◌<◌, ◌≤◌, ◌≡◌, refl, ap, ◌∙◌, true, false, none, some, u64, arith, le→ltb-false, lt→ltb,
  ◌==◌,
}
use final_project_nimbusvaul.Rocks.{RocksDb}
use final_project_nimbusvaul.Wal.{wal_key, encode_entry, append, write_entry, read_entry}
use final_project_nimbusvaul.Follower.{
  Follower, AppendEntryReq, append_entry, on_existing, handle_append,
}

module _ {D : Type 0} ⦃db : RocksDb D⦄ where
  -- The follower between the two steps of an append, when the index has moved on and the entry is not
  -- written; and after a failed write, if the database stays as it was.
  abbrev moved_on : Follower D → AppendEntryReq → Follower D
  moved_on f req = record f {
    current_term = req.leader_term;
    wal = record f.wal { last_index = req.entry.log_index };
  }

  append-fails :
      (f : Follower D) (req : AppendEntryReq)
      → f.current_term ≤ req.leader_term
      → req.entry.log_index ≡ f.wal.last_index + 1
      → f.wal.last_index + 1 < u64
      → req.prev_log_index ≡ f.wal.last_index
      → db.put f.wal.store (wal_key req.entry.log_index) (encode_entry req.entry)
        ≡ (false, f.wal.store)
      → handle_append f req ≡ (none, moved_on f req)
  unfolding handle_append append_entry append write_entry
  append-fails f req term next room prev failed =
      let e = req.entry in
      let wrapped : (f.wal.last_index + 1) % u64 ≡ e.log_index = omega (arith, next, room) in
      let current = le→ltb-false req.leader_term f.current_term term in
      let new = lt→ltb f.wal.last_index e.log_index (omega (arith, next)) in
      let near = le→ltb-false e.log_index e.log_index (omega arith) in
      let same_prev : (req.prev_log_index == f.wal.last_index) ≡ true = ground arith in
      rw (current, new, wrapped, near, same_prev, failed) refl

  -- A request that comes in the middle of an append of the same entry is acknowledged, and changes
  -- nothing: the log has the index already, and no entry there.
  handle_append-between :
      (f : Follower D) (req : AppendEntryReq)
      → read_entry f.wal req.entry.log_index ≡ none
      → handle_append (moved_on f req) req ≡ (some true, moved_on f req)
  unfolding handle_append on_existing read_entry
  handle_append-between f req absent =
      let current = le→ltb-false req.leader_term req.leader_term (omega arith) in
      let old = le→ltb-false req.entry.log_index req.entry.log_index (omega arith) in
      rw (current, old, absent) refl

  -- The next entry arrives in order, and the write of it fails and leaves the database as it was:
  -- the call throws, the same request sent again is acknowledged, and the entry is not in the log.
  handle_append-lost :
      (f : Follower D) (req : AppendEntryReq)
      → f.current_term ≤ req.leader_term
      → req.entry.log_index ≡ f.wal.last_index + 1
      → f.wal.last_index + 1 < u64
      → req.prev_log_index ≡ f.wal.last_index
      → db.put f.wal.store (wal_key req.entry.log_index) (encode_entry req.entry)
        ≡ (false, f.wal.store)
      → read_entry f.wal req.entry.log_index ≡ none
      → let after = (handle_append f req).1 in
        ((handle_append f req).0 ≡ none)
        × ((handle_append after req).0 ≡ some true)
        × (read_entry after.wal req.entry.log_index ≡ none)
  unfolding handle_append on_existing read_entry
  handle_append-lost f req term next room prev failed absent =
      let thrown = append-fails f req term next room prev failed in
      (
        ap (λ p. p.0) thrown,
        ap (λ p. (handle_append p.1 req).0) thrown
            ∙ ap (λ p. p.0) (handle_append-between f req absent),
        ap (λ p. read_entry p.1.wal req.entry.log_index) thrown ∙ absent,
      )
