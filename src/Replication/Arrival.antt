-- ===== src/Replication/Arrival.antt =====
-- What a replication thread leaves of a follower that it reaches.
use final_project_nimbusvaul.Base.{
  ℕ, zero, suc, ◌+◌, ◌-◌, ◌%◌, ◌≤◌, ◌≡◌, refl, true, false, List, Option, some, ltb, u64, arith,
  length, get_elem?, get_elem?_lt, drop_at, Option-cases, inl, inr, sym, ◌∙◌, ap, subst, if_elim,
  Bytes,
}
use final_project_nimbusvaul.Rocks.{RocksDb, RocksLaws}
use final_project_nimbusvaul.Wal.{WalEntry, Wal, read_entry}
use final_project_nimbusvaul.Wal.Log.{IsLog, last_index-commit}
use final_project_nimbusvaul.Follower.{Follower, handle_append, handle_commit}
use final_project_nimbusvaul.Follower.Prefix.{
  IsLeaderLog, HoldsPrefix, handle_append-HoldsPrefix, handle_append_accepts,
  handle_commit-HoldsPrefix,
}
use final_project_nimbusvaul.Replication.{
  Replication, follower_match, record_ack, send_entry, catch_up, replicate_to_follower,
}
use final_project_nimbusvaul.Replication.Linked.{
  linked, request_of, refused_unchanged, replicate-refused, handle_append-term,
  handle_append_answers,
}

module _ {D : Type 0} ⦃db : RocksDb D⦄
    (no_failure : (d : D) (k v : Bytes) → (db.put d k v).0 ≡ true) (laws : RocksLaws db)
    (ls : List WalEntry) (leader : IsLeaderLog ls) (t : ℕ)
    (one_term : (i : ℕ) (e : WalEntry) → get_elem? ls i ≡ some e → e.term ≡ t) where
  -- The follower holds a prefix of the log, at least `n` entries, in no later term.
  abbrev pub InStep : ℕ → Follower D → Type 0
  InStep n f = HoldsPrefix ls f.wal × (f.current_term ≤ t) × (n ≤ f.wal.last_index)

  commit-InStep : (f : Follower D) (n idx : ℕ) → InStep n f → InStep n (handle_commit f idx).1
  unfolding handle_commit
  commit-InStep f n idx (held, low, far) = (
    handle_commit-HoldsPrefix laws ls leader f idx held,
    if_elim (λ (p : Option ℕ × Follower D). p.1.current_term ≤ t) (ltb f.wal.last_index idx) _ _
        (λ _. low) (λ _. low),
    if_elim (λ (p : Option ℕ × Follower D). n ≤ p.1.wal.last_index) (ltb f.wal.last_index idx) _ _
        (λ _. far) (λ _. omega (arith, far, last_index-commit f.wal idx)),
  )

  -- An entry that is taken: the follower holds the log up to it.
  taken-InStep :
      (r : Replication D) (f : Follower D) (addr : Bytes) (now i : ℕ) (e : WalEntry)
      → get_elem? ls i ≡ some e
      → HoldsPrefix ls f.wal
      → f.current_term ≤ t
      → (handle_append f (request_of e)).0 ≡ some true
      → let sent = send_entry ⦃peer = linked⦄ r f addr now e.term e in
        (sent.0 ≡ true) × InStep (suc i) sent.2 × (sent.1.wal ≡ r.wal)
  unfolding send_entry linked record_ack
  taken-InStep r f addr now i e at held low took =
      let req = request_of e in
      let (held', far) = handle_append-HoldsPrefix laws ls leader f req i true held at took in
      let low' = handle_append-term f req t low (omega (arith, one_term i e at)) in
      let after =
        commit-InStep (handle_append f req).1 (suc i) e.log_index
          (held', low', omega (arith, far refl, leader.numbered i e at)) in
      rw (took, send_entry) (refl, after, refl)

  next-InStep :
      (r : Replication D) (f : Follower D) (addr : Bytes) (now i : ℕ) (e : WalEntry)
      → get_elem? ls i ≡ some e
      → InStep i f
      → let sent = send_entry ⦃peer = linked⦄ r f addr now e.term e in
        (sent.0 ≡ true) × InStep (suc i) sent.2 × (sent.1.wal ≡ r.wal)
  next-InStep r f addr now i e at (held, low, near) =
      let prev : (e.log_index + u64 - 1) % u64 ≡ i =
        omega (arith, leader.numbered i e at, leader.short, get_elem?_lt i ls e at) in
      elim (handle_append_accepts laws ls leader f (request_of e) i held at
        (omega (arith, low, one_term i e at)) near prev) [
          | inl took ↦ taken-InStep r f addr now i e at held low took
          | inr broken ↦ absurd (handle_append_answers no_failure f (request_of e) broken)
        ]

  catch_up-InStep :
      (rounds i : ℕ) (r : Replication D) (f : Follower D) (addr : Bytes) (now : ℕ)
      → IsLog r.wal ls
      → InStep i f
      → i + rounds ≤ length ls
      → InStep (i + rounds) (catch_up ⦃peer = linked⦄ r f addr now (suc i) rounds).1
  unfolding catch_up
  catch_up-InStep zero i r f addr now log (held, low, near) fits = (held, low, omega (arith, near))
  catch_up-InStep (suc rounds) i r f addr now log held fits =
      let (e, at, _) = drop_at ls i (omega (arith, fits)) in
      let found : read_entry r.wal (suc i) ≡ some e = log.entries i (omega (arith, fits)) ∙ at in
      let sent = send_entry ⦃peer = linked⦄ r f addr now e.term e in
      let (took, held', same_wal) = next-InStep r f addr now i e at held in
      let rest =
        catch_up-InStep rounds (suc i) sent.1 sent.2 addr now
          (subst (λ w. IsLog w ls) (sym same_wal) log) held' (omega (arith, fits)) in
      let one_more : suc i + 1 ≡ suc (suc i) = omega arith in
      let whole : suc i + rounds ≡ i + suc rounds = omega arith in
      rw (found, catch_up, took, one_more)
        (subst
          (λ n. InStep n (catch_up ⦃peer = linked⦄ sent.1 sent.2 addr now (suc (suc i)) rounds).1)
          whole rest)

  -- A replication thread that runs to its end, with a follower that every call reaches and whose
  -- log is any prefix of the leader's, not shorter than the leader's mark for it: the
  -- follower then holds the leader's log up to the entry at least, and a prefix still. No write fails, and all
  -- entries are of one term, which the follower's does not exceed.
  pub replicate_to_follower-arrives :
      (r : Replication D) (f : Follower D) (addr : Bytes) (now i : ℕ) (e : WalEntry)
      → IsLog r.wal ls
      → get_elem? ls i ≡ some e
      → HoldsPrefix ls f.wal
      → f.current_term ≤ t
      → follower_match r.followers addr ≤ f.wal.last_index
      → let after = (replicate_to_follower ⦃peer = linked⦄ r f addr now e).1 in
        HoldsPrefix ls after.wal × (e.log_index ≤ after.wal.last_index)
  unfolding replicate_to_follower
  replicate_to_follower-arrives r f addr now i e log at held low mark =
      let n = leader.numbered i e at in
      let answer = (handle_append f (request_of e)).0 in
      elim (Option-cases answer) [
        | inl broken ↦ absurd (handle_append_answers no_failure f (request_of e) broken)
        | inr (true, took) ↦
            let (sent, (held', _, far), _) = taken-InStep r f addr now i e at held low took in
            rw (sent, replicate_to_follower) (held', omega (arith, far, n))
        | inr (false, refused) ↦
            let f' = (handle_append f (request_of e)).1 in
            let (held', _) =
              handle_append-HoldsPrefix laws ls leader f (request_of e) i false held at refused in
            let low' = handle_append-term f (request_of e) t low (omega (arith, one_term i e at)) in
            let mark' : follower_match r.followers addr ≤ f'.wal.last_index = omega (
              arith,
              mark,
              ap (λ (w : Wal D). w.last_index) (refused_unchanged f (request_of e) refused),
            ) in
            let from = follower_match r.followers addr in
            let rounds = e.log_index + 1 - suc from in
            let caught =
              catch_up-InStep rounds from r f' addr now log (held', low', mark')
                (omega (arith, mark', held'.within, n, get_elem?_lt i ls e at)) in
            let next : from + 1 ≡ suc from = omega arith in
            rw (replicate-refused r f addr now e refused, next) (caught.0, omega (arith, caught.2))
      ]
