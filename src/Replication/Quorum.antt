-- ===== src/Replication/Quorum.antt =====
-- When `write` reports success, and what stays in the log when it does not.
use final_project_nimbusvaul.Base.{
  ℕ, suc, ◌+◌, ◌<◌, ◌≤◌, ◌≡◌, ◌≢◌, refl, false, List, [], ◌∷◌, some, Bytes, leb, ◌==◌,
  if◌then◌else◌, arith, Bool-cases, Option-cases, inl, inr, sym, ◌∙◌, ap, lt→leb-false,
  leb-false→lt,
}
use final_project_nimbusvaul.Rocks.{RocksDb}
use final_project_nimbusvaul.Wal.{WalEntryType, append, commit}
use final_project_nimbusvaul.Replication.{
  ok, unavailable, AckCounts, acks_of, set_acks, Replication, Ack, count_ack, record_ack,
  record_acks, majority_needed, has_quorum, wait_quorum, write,
}

-- How many of the acks are for entry `idx`.
unfoldable pub acks_for : ℕ → List Ack → ℕ
acks_for idx [] = 0
acks_for idx (a ∷ acks) = if a.log_index == idx then suc (acks_for idx acks) else acks_for idx acks

unfoldable pub polled : ℕ → List (List Ack) → ℕ
unfolding acks_for
polled idx [] = 0
polled idx (acks ∷ polls) = acks_for idx acks + polled idx polls

polled_nil : (idx : ℕ) (polls : List (List Ack)) → polls ≡ [] → polled idx polls ≡ 0
unfolding polled
polled_nil idx [] e = refl
polled_nil idx (x ∷ polls) e = absurd (cc)

acks_of-set_acks :
    (i j n : ℕ) (t : AckCounts)
    → acks_of j (set_acks i n t) ≡ (if i == j then some n else acks_of j t)
unfolding acks_of set_acks
acks_of-set_acks i j n [] = refl
acks_of-set_acks i j n ((k, m) ∷ t) = ground (arith, acks_of-set_acks i j n t)

acks_of-count_ack :
    (i j n : ℕ) (t : AckCounts)
    → acks_of j t ≡ some n
    → acks_of j (count_ack t i) ≡ some (if i == j then n + 1 else n)
unfolding count_ack
acks_of-count_ack i j n t h = elim (Option-cases (acks_of i t)) [
  | inl e ↦ ground (arith, ap (λ k. acks_of k t) {x = i} {y = j})
  | inr (m, e) ↦ ground (arith, acks_of-set_acks i j (m + 1) t)
]

module _ {D : Type 0} ⦃db : RocksDb D⦄ where
  acks_of-record_acks :
      (r : Replication D) (acks : List Ack) (idx n : ℕ)
      → acks_of idx r.ack_counts ≡ some n
      → acks_of idx (record_acks r acks).ack_counts ≡ some (n + acks_for idx acks)
  unfolding record_acks record_ack acks_for
  acks_of-record_acks r [] idx n h = h ∙ ap some (omega arith)
  acks_of-record_acks r (a ∷ acks) idx n h =
      acks_of-record_acks (record_ack r a) acks idx (if a.log_index == idx then n + 1 else n)
        (acks_of-count_ack a.log_index idx n r.ack_counts h)
      ∙ ap some (ground arith)

  wal-record_acks : (r : Replication D) (acks : List Ack) → (record_acks r acks).wal ≡ r.wal
  unfolding record_acks record_ack
  wal-record_acks r [] = refl
  wal-record_acks r (a ∷ acks) = wal-record_acks (record_ack r a) acks

  has_quorum_lem :
      (r : Replication D) (idx needed n : ℕ)
      → acks_of idx r.ack_counts ≡ some n
      → has_quorum r idx needed ≡ leb needed n
  unfolding has_quorum
  has_quorum_lem r idx needed n h = rw (h, has_quorum)

  wait_few :
      (r : Replication D) (idx needed n : ℕ) (polls : List (List Ack))
      → acks_of idx r.ack_counts ≡ some n
      → n + polled idx polls < needed
      → ((wait_quorum r idx needed polls).0 ≡ unavailable)
        × ((wait_quorum r idx needed polls).1.wal ≡ r.wal)
  unfolding wait_quorum polled
  wait_few r idx needed n [] h few = (refl, refl)
  wait_few r idx needed n (acks ∷ polls) h few =
      let r' = record_acks r acks in
      let h' = acks_of-record_acks r acks idx n h in
      let short : has_quorum r' idx needed ≡ false =
        has_quorum_lem r' idx needed (n + acks_for idx acks) h'
        ∙ lt→leb-false needed (n + acks_for idx acks) (omega arith) in
      let ih = wait_few r' idx needed (n + acks_for idx acks) polls h' (omega arith) in
      rw (short, wait_quorum) (ih.0, ih.1 ∙ wal-record_acks r acks)

  wait_enough :
      (r : Replication D) (idx needed n : ℕ) (polls : List (List Ack))
      → acks_of idx r.ack_counts ≡ some n
      → polls ≢ []
      → needed ≤ n + polled idx polls
      → ((wait_quorum r idx needed polls).0 ≡ ok)
        × ((wait_quorum r idx needed polls).1.wal ≡ commit r.wal idx)
  unfolding wait_quorum polled
  wait_enough r idx needed n [] h ne enough = absurd (ne refl)
  wait_enough r idx needed n (acks ∷ polls) h ne enough =
      let r' = record_acks r acks in
      let h' = acks_of-record_acks r acks idx n h in
      elim (Bool-cases (has_quorum r' idx needed)) [
        | inl yes_now ↦
            rw (yes_now, wait_quorum) (refl, ap (λ w. commit w idx) (wal-record_acks r acks))
        | inr not_yet ↦
            let more : n + acks_for idx acks < needed =
              leb-false→lt needed (n + acks_for idx acks)
                (sym (has_quorum_lem r' idx needed _ h') ∙ not_yet) in
            let ih =
              wait_enough r' idx needed (n + acks_for idx acks) polls h'
                (λ e. omega (arith, polled_nil idx polls e)) (omega arith) in
            rw (not_yet, wait_quorum) (ih.0, ih.1 ∙ ap (λ w. commit w idx) (wal-record_acks r acks))
      ]

  -- A write whose entry was appended, and that polls at least once, succeeds exactly when the acks
  -- for its entry that come in before the deadline reach the majority needed; the log is then
  -- committed up to the entry. Otherwise the result is UNAVAILABLE, and the entry stays in the log,
  -- not committed.
  pub write_quorum :
      (r : Replication D) (type : WalEntryType) (payload : Bytes) (polls : List (List Ack))
      (idx : ℕ)
      → (append r.wal type r.term payload).0 ≡ some idx
      → polls ≢ []
      → (majority_needed r ≤ polled idx polls
          → ((write r type payload polls).0 ≡ some (ok, idx))
            × ((write r type payload polls).1.wal
                ≡ commit (append r.wal type r.term payload).1 idx))
        × (polled idx polls < majority_needed r
            → ((write r type payload polls).0 ≡ some (unavailable, idx))
              × ((write r type payload polls).1.wal ≡ (append r.wal type r.term payload).1))
  unfolding write
  write_quorum r type payload polls idx wrote ne =
      let r' : Replication D = record r {
        wal = (append r.wal type r.term payload).1;
        ack_counts = set_acks idx 0 r.ack_counts;
      } in
      let zero_acks : acks_of idx r'.ack_counts ≡ some 0 =
        acks_of-set_acks idx idx 0 r.ack_counts ∙ ground arith in
      (
        λ enough.
            let q = wait_enough r' idx (majority_needed r) 0 polls zero_acks ne (omega arith) in
            rw (wrote, write) (ap (λ x. some (x, idx)) q.0, q.1),
        λ few.
            let q = wait_few r' idx (majority_needed r) 0 polls zero_acks (omega arith) in
            rw (wrote, write) (ap (λ x. some (x, idx)) q.0, q.1),
      )
