-- ===== src/Follower/Prefix.antt =====
-- A follower that hears one leader only holds a prefix of that leader's log.
use final_project_nimbusvaul.Base.{
  ℕ, suc, ◌+◌, ◌%◌, ◌<◌, ◌≤◌, ◌≡◌, Bool, true, false, not, List, [], ◌∷◌, ◌++◌, Option, none, some,
  same_refl, ltb, ◌==◌, u64, arith, length, length-take, take, take-suc, get_elem?, get_elem?-take,
  get_elem?_lt, Option-cases, inl, inr, sym, ◌∙◌, ap, subst, le→ltb-false, ltb→lt, ltb-false→le,
  if_elim, ◌⊎◌, false≢true,
}
use final_project_nimbusvaul.Rocks.{RocksDb, RocksLaws}
use final_project_nimbusvaul.Wal.{WalEntry, Wal, append, commit, read_entry}
use final_project_nimbusvaul.Wal.Codec.{IsEncodable}
use final_project_nimbusvaul.Wal.Log.{IsLog, append-IsLog, commit-IsLog, last_index-commit}
use final_project_nimbusvaul.Follower.{
  Follower, AppendEntryReq, same_entry, on_existing, append_entry, handle_append, handle_commit,
}

-- The entries of a log fit the encoding, and number themselves from 1.
pub record IsLeaderLog (ls : List WalEntry) : Type 0 where
  pub short : length ls < u64
  pub encodable : (i : ℕ) (e : WalEntry) → get_elem? ls i ≡ some e → IsEncodable e
  pub numbered : (i : ℕ) (e : WalEntry) → get_elem? ls i ≡ some e → e.log_index ≡ suc i

same_entry_refl : (e : WalEntry) → same_entry e e ≡ true
same_entry_refl e = ground (arith, same_refl e.payload)

module _ {D : Type 0} ⦃db : RocksDb D⦄ where
  -- The follower's log is the beginning of `ls`.
  pub record HoldsPrefix (ls : List WalEntry) (w : Wal D) : Type 0 where
    pub within : w.last_index ≤ length ls
    pub log : IsLog w (take w.last_index ls)

  module _ (laws : RocksLaws db) (ls : List WalEntry) (leader : IsLeaderLog ls) where
    existing_true :
        (w : Wal D) (i : ℕ) (e : WalEntry)
        → HoldsPrefix ls w
        → get_elem? ls i ≡ some e
        → e.log_index ≤ w.last_index
        → on_existing (read_entry w e.log_index) e ≡ true
    unfolding on_existing
    existing_true w i e h at small =
        let n = leader.numbered i e at in
        let inside : i < w.last_index = omega arith in
        let found : read_entry w (suc i) ≡ some e =
          h.log.entries i (omega (arith, length-take w.last_index ls, h.within))
          ∙ get_elem?-take w.last_index i ls inside
          ∙ at in
        rw (n, found, on_existing) (same_entry_refl e)

    append_next :
        (f : Follower D) (i : ℕ) (e : WalEntry) (b : Bool)
        → HoldsPrefix ls f.wal
        → get_elem? ls i ≡ some e
        → i ≡ f.wal.last_index
        → (append_entry f e).0 ≡ some b
        → (b ≡ true)
          × HoldsPrefix ls (append_entry f e).1.wal
          × ((append_entry f e).1.wal.last_index ≡ e.log_index)
    unfolding append_entry
    append_next f i e b h at here done =
        elim (Option-cases (append f.wal e.type e.term e.payload).0) [
          | inl failed ↦ absurd (ground arith)
          | inr (idx, wrote) ↦
              let enc = leader.encodable i e at in
              let room : f.wal.last_index + 1 < u64 =
                omega (arith, leader.short, get_elem?_lt i ls e at) in
              let (q, log) =
                append-IsLog laws f.wal (take f.wal.last_index ls) e.type e.term e.payload idx h.log
                  room enc.term_fits enc.payload_fits enc.typed wrote in
              let number : idx ≡ e.log_index = omega (arith, leader.numbered i e at) in
              let at' : get_elem? ls f.wal.last_index ≡ some e =
                subst (λ k. get_elem? ls k ≡ some e) here at in
              let grown : take f.wal.last_index ls ++ (record e { log_index = idx }) ∷ []
                  ≡ take (suc f.wal.last_index) ls =
                ap (λ k. take f.wal.last_index ls ++ (record e { log_index = k }) ∷ []) number
                ∙ sym (take-suc f.wal.last_index ls e at') in
              let w' = (append f.wal e.type e.term e.payload).1 in
              let log' : IsLog w' (take (suc f.wal.last_index) ls) = subst (IsLog w') grown log in
              let last : w'.last_index ≡ suc f.wal.last_index = omega (
                arith,
                log'.counted,
                length-take (suc f.wal.last_index) ls,
                get_elem?_lt i ls e at,
              ) in
              (
                ground arith,
                record {
                  within = omega (arith, get_elem?_lt i ls e at);
                  log = subst (λ k. IsLog w' (take k ls)) (sym last) log';
                },
                omega (arith, leader.numbered i e at),
              )
        ]

    -- Whatever entry of the leader's log arrives, in whatever order, at a follower whose log is a
    -- prefix of the leader's: if the call is answered (the log does not fail to write), and runs
    -- alone, the follower's log is a prefix of the leader's still, and the answer `true` means that
    -- the entry is in it.
    pub handle_append-HoldsPrefix :
        (f : Follower D) (req : AppendEntryReq) (i : ℕ) (b : Bool)
        → HoldsPrefix ls f.wal
        → get_elem? ls i ≡ some req.entry
        → (handle_append f req).0 ≡ some b
        → HoldsPrefix ls (handle_append f req).1.wal
          × (b ≡ true → req.entry.log_index ≤ (handle_append f req).1.wal.last_index)
    unfolding handle_append
    handle_append-HoldsPrefix f req i b h at done =
        if_elim Q (ltb req.leader_term f.current_term) _ _ (λ _. refused f)
          (λ _.
            if_elim Q (not (ltb f.wal.last_index e.log_index)) _ _
              (λ old d. (h, λ _. ltb-false→le f.wal.last_index e.log_index (ground arith)))
              (λ new.
                if_elim Q (ltb ((f.wal.last_index + 1) % u64) e.log_index) _ _ (λ _. refused f')
                  (λ near.
                    if_elim Q (not (req.prev_log_index == f.wal.last_index)) _ _ (λ _. refused f')
                      (λ _ d.
                        let grown = append_next f' i e b h at (here new near) d in
                        (grown.1, λ _. omega (arith, grown.2))))))
          done
      where
        e : WalEntry
        e = req.entry

        f' : Follower D
        f' = record f { current_term = req.leader_term }

        Q : Option Bool × Follower D → Type 0
        Q p = p.0 ≡ some b → HoldsPrefix ls p.1.wal × (b ≡ true → e.log_index ≤ p.1.wal.last_index)

        refused :
            (g : Follower D)
            → some false ≡ some b
            → HoldsPrefix ls f.wal × (b ≡ true → e.log_index ≤ g.wal.last_index)
        refused g d = (h, λ t. absurd (ground arith))

        here :
            not (ltb f.wal.last_index e.log_index) ≡ false
            → ltb ((f.wal.last_index + 1) % u64) e.log_index ≡ false
            → i ≡ f.wal.last_index
        here new near =
            let above : f.wal.last_index < e.log_index =
              ltb→lt f.wal.last_index e.log_index (ground arith) in
            let next = ltb-false→le ((f.wal.last_index + 1) % u64) e.log_index near in
            omega (arith, leader.numbered i e at, leader.short, get_elem?_lt i ls e at)

    -- An entry of the leader's log that the follower has already, sent again in a term that is not
    -- stale or in the next one in order, is acknowledged, unless the log fails to write.
    pub handle_append_accepts :
        (f : Follower D) (req : AppendEntryReq) (i : ℕ)
        → HoldsPrefix ls f.wal
        → get_elem? ls i ≡ some req.entry
        → f.current_term ≤ req.leader_term
        → i ≤ f.wal.last_index
        → req.prev_log_index ≡ i
        → ((handle_append f req).0 ≡ some true) ⊎ ((handle_append f req).0 ≡ none)
    unfolding handle_append
    handle_append_accepts f req i h at term near prev =
        if_elim Q (ltb req.leader_term f.current_term) _ _
          (λ t. absurd (false≢true (sym (le→ltb-false req.leader_term f.current_term term) ∙ t)))
          (λ _.
            if_elim Q (not (ltb f.wal.last_index e.log_index)) _ _
              (λ old. inl (
                ap some (
                  existing_true f.wal i e h at
                    (ltb-false→le f.wal.last_index e.log_index (ground arith)))))
              (λ new.
                let here : i ≡ f.wal.last_index =
                  omega (arith, n, ltb→lt f.wal.last_index e.log_index (ground arith)) in
                let next : ltb ((f.wal.last_index + 1) % u64) e.log_index ≡ false =
                  le→ltb-false ((f.wal.last_index + 1) % u64) e.log_index
                    (omega (arith, n, leader.short, get_elem?_lt i ls e at)) in
                let same_prev : (req.prev_log_index == f.wal.last_index) ≡ true = ground arith in
                rw (next, same_prev)
                  (elim (Option-cases (append f.wal e.type e.term e.payload).0) [
                    | inl failed ↦ inr (rw (failed, append_entry))
                    | inr (idx, wrote) ↦ inl (rw (wrote, append_entry))
                  ])))
      where
        e : WalEntry
        e = req.entry

        n : e.log_index ≡ suc i
        n = leader.numbered i e at

        Q : Option Bool × Follower D → Type 0
        Q p = (p.0 ≡ some true) ⊎ (p.0 ≡ none)

    -- A commit, of whatever index, keeps the follower's log a prefix of the leader's.
    pub handle_commit-HoldsPrefix :
        (f : Follower D) (idx : ℕ)
        → HoldsPrefix ls f.wal
        → HoldsPrefix ls (handle_commit f idx).1.wal
    unfolding handle_commit
    handle_commit-HoldsPrefix f idx h =
        if_elim (λ (p : Option ℕ × Follower D). HoldsPrefix ls p.1.wal) (ltb f.wal.last_index idx)
          (none, f) (some idx, record f { wal = commit f.wal idx }) (λ _. h)
          (λ near.
            let (log, _) =
              commit-IsLog laws f.wal (take f.wal.last_index ls) idx h.log
                (ltb-false→le f.wal.last_index idx near) in
            record {
              within = rw (last_index-commit f.wal idx) h.within;
              log =
                  subst (λ k. IsLog (commit f.wal idx) (take k ls))
                    (sym (last_index-commit f.wal idx)) log;
            })
