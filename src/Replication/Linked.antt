-- ===== src/Replication/Linked.antt =====
-- A replication thread of the leader with a follower that every call reaches.
use final_project_nimbusvaul.Base.{
  ℕ, ◌+◌, ◌-◌, ◌%◌, ◌≤◌, ◌≡◌, ◌≢◌, refl, Bool, true, false, not, Option, none, some, ltb, ◌==◌, u64,
  Option-cases, inl, inr, ap, if_elim, Bytes,
}
use final_project_nimbusvaul.Rocks.{RocksDb}
use final_project_nimbusvaul.Wal.{WalEntry, Wal, append, write_entry, read_entry}
use final_project_nimbusvaul.Follower.{
  on_existing, Follower, AppendEntryReq, append_entry, handle_append, handle_commit,
}
use final_project_nimbusvaul.Replication.{
  Replication, Peer, follower_match, send_entry, catch_up, replicate_to_follower,
}

-- A follower that every call reaches.
unfoldable pub linked : {D : Type 0} ⦃db : RocksDb D⦄ → Peer (Follower D)
linked = record {
  append_rpc = λ f req. handle_append f req;
  commit_rpc = λ f idx. (handle_commit f idx).1;
}

abbrev pub request_of : WalEntry → AppendEntryReq
request_of e = record {
  leader_term = e.term;
  prev_log_index = (e.log_index + u64 - 1) % u64;
  entry = e;
}

module _ {D : Type 0} ⦃db : RocksDb D⦄ where
  append_entry-takes : (f : Follower D) (e : WalEntry) → (append_entry f e).0 ≢ some false
  unfolding append_entry
  append_entry-takes f e = elim (Option-cases (append f.wal e.type e.term e.payload).0) [
    | inl failed ↦ rw (failed, append_entry) (λ q. absurd (cc))
    | inr (idx, wrote) ↦ rw (wrote, append_entry) (λ q. absurd (cc))
  ]

  -- A property of the answer to an entry, from its branches.
  handle_append_elim :
      (Q : Option Bool × Follower D → Type 0) (f : Follower D) (req : AppendEntryReq)
      → let f' : Follower D = record f { current_term = req.leader_term } in
        Q (some false, f)
        → Q (some (on_existing (read_entry f.wal req.entry.log_index) req.entry), f')
        → Q (some false, f')
        → Q (append_entry f' req.entry)
        → Q (handle_append f req)
  unfolding handle_append
  handle_append_elim Q f req stale old refused new =
      if_elim Q (ltb req.leader_term f.current_term) _ _ (λ _. stale)
        (λ _.
          if_elim Q (not (ltb f.wal.last_index req.entry.log_index)) _ _ (λ _. old)
            (λ _.
              if_elim Q (ltb ((f.wal.last_index + 1) % u64) req.entry.log_index) _ _ (λ _. refused)
                (λ _.
                  if_elim Q (not (req.prev_log_index == f.wal.last_index)) _ _ (λ _. refused)
                    (λ _. new))))

  pub refused_unchanged :
      (f : Follower D) (req : AppendEntryReq)
      → (handle_append f req).0 ≡ some false
      → (handle_append f req).1.wal ≡ f.wal
  refused_unchanged f req =
      let f' : Follower D = record f { current_term = req.leader_term } in
      handle_append_elim (λ p. p.0 ≡ some false → p.1.wal ≡ f.wal) f req (λ e. refl) (λ e. refl)
        (λ e. refl) (λ e. absurd (append_entry-takes f' req.entry e))

  pub not_sent :
      (r : Replication D) (f : Follower D) (addr : Bytes) (now : ℕ) (e : WalEntry)
      → (handle_append f (request_of e)).0 ≡ some false
      → send_entry ⦃peer = linked⦄ r f addr now e.term e
        ≡ (false, r, (handle_append f (request_of e)).1)
  unfolding send_entry linked
  not_sent r f addr now e refused = rw (refused, send_entry) refl

  -- After a refusal the thread goes on from its mark for the follower.
  pub replicate-refused :
      (r : Replication D) (f : Follower D) (addr : Bytes) (now : ℕ) (e : WalEntry)
      → (handle_append f (request_of e)).0 ≡ some false
      → let from = follower_match r.followers addr + 1 in
        replicate_to_follower ⦃peer = linked⦄ r f addr now e
        ≡ catch_up ⦃peer = linked⦄ r
            (handle_append f (request_of e)).1
            addr
            now
            from
            (e.log_index + 1 - from)
  unfolding replicate_to_follower
  replicate-refused r f addr now e refused =
      ap
        (λ (sent : Bool × Replication D × Follower D).
          let from = follower_match sent.1.followers addr + 1 in
          elim sent.0 as (λ _. Replication D × Follower D) [
            | true ↦ (sent.1, sent.2)
            | false ↦ catch_up ⦃peer = linked⦄ sent.1 sent.2 addr now from (e.log_index + 1 - from)
          ])
        (not_sent r f addr now e refused)

  pub handle_append-term :
      (f : Follower D) (req : AppendEntryReq) (t : ℕ)
      → f.current_term ≤ t
      → req.leader_term ≤ t
      → (handle_append f req).1.current_term ≤ t
  unfolding append_entry
  handle_append-term f req t h k = handle_append_elim (λ p. p.1.current_term ≤ t) f req h k k k

  module _ (no_failure : (d : D) (k v : Bytes) → (db.put d k v).0 ≡ true) where
    append_succeeds : (w : Wal D) (e : WalEntry) → (append w e.type e.term e.payload).0 ≢ none
    unfolding append write_entry
    append_succeeds w e = rw (no_failure _ _ _) (λ q. absurd (cc))

    pub handle_append_answers :
        (f : Follower D) (req : AppendEntryReq) → (handle_append f req).0 ≢ none
    unfolding append_entry
    handle_append_answers f req =
        handle_append_elim (λ p. p.0 ≢ none) f req (λ q. absurd (cc)) (λ q. absurd (cc))
          (λ q. absurd (cc))
          (elim (Option-cases (append f.wal req.entry.type req.entry.term req.entry.payload).0) [
            | inl failed ↦ absurd (append_succeeds f.wal req.entry failed)
            | inr (idx, wrote) ↦ rw (wrote, append_entry) (λ q. absurd (cc))
          ])
