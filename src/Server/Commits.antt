-- ===== src/Server/Commits.antt =====
-- What the leader's log and coordinator hold after a write that was acknowledged.
use final_project_nimbusvaul.Base.{
  ℕ, suc, ◌+◌, ◌<◌, ◌≡◌, refl, sym, ap, ◌∙◌, false, List, [], ◌∷◌, ◌++◌, Option, none, some, Bytes,
  u64, u32, length, arith, Bool-cases, Option-cases, inl, inr, length-append, get_elem?-append_last,
  subst,
}
use final_project_nimbusvaul.Rocks.{RocksDb, RocksLaws}
use final_project_nimbusvaul.Float.{Floats}
use final_project_nimbusvaul.Wal.{WalEntry, WalEntryType, Wal, append, commit, read_entry}
use final_project_nimbusvaul.Wal.Codec.{IsTyped}
use final_project_nimbusvaul.Wal.Log.{IsLog, append-IsLog, commit-IsLog}
use final_project_nimbusvaul.Apply.{apply_wal_entry}
use final_project_nimbusvaul.Replication.{
  Replication, WriteResult, ok, unavailable, timeout, Ack, set_acks, record_ack, record_acks,
  has_quorum, majority_needed, wait_quorum, write,
}
use final_project_nimbusvaul.Server.{Leader, on_commit, after_write, replicate}

module _ {D : Type 0} ⦃db : RocksDb D⦄ where
  kept-record_acks :
      (r : Replication D) (acks : List Ack)
      → ((record_acks r acks).wal ≡ r.wal) × ((record_acks r acks).term ≡ r.term)
  unfolding record_acks record_ack
  kept-record_acks r [] = (refl, refl)
  kept-record_acks r (a ∷ acks) = kept-record_acks (record_ack r a) acks

  -- Waiting leaves the log alone but for the commit of the index, and the term.
  wait-ok :
      (r : Replication D) (idx needed : ℕ) (polls : List (List Ack))
      → (wait_quorum r idx needed polls).0 ≡ ok
      → ((wait_quorum r idx needed polls).1.wal ≡ commit r.wal idx)
        × ((wait_quorum r idx needed polls).1.term ≡ r.term)
  unfolding wait_quorum
  wait-ok r idx needed [] h = absurd (cc)
  wait-ok r idx needed (acks ∷ polls) h =
      let kept = kept-record_acks r acks in
      elim (Bool-cases (has_quorum (record_acks r acks) idx needed)) [
        | inl now ↦ rw (now, wait_quorum) (ap (λ w. commit w idx) kept.0, kept.1)
        | inr later ↦
            let ih = wait-ok (record_acks r acks) idx needed polls (unwrap later h) in
            rw (later, wait_quorum) (ih.0 ∙ ap (λ w. commit w idx) kept.0, ih.1 ∙ kept.1)
      ]
    where
      unwrap :
          has_quorum (record_acks r acks) idx needed ≡ false
          → (wait_quorum r idx needed (acks ∷ polls)).0 ≡ ok
          → (wait_quorum (record_acks r acks) idx needed polls).0 ≡ ok
      unwrap later h =
          let same : (wait_quorum r idx needed (acks ∷ polls)).0
              ≡ (wait_quorum (record_acks r acks) idx needed polls).0 =
            rw (later, wait_quorum) refl in
          sym same ∙ h

module _ {F D : Type 0} ⦃fl : Floats F⦄ ⦃db : RocksDb D⦄ (laws : RocksLaws db) where
  ok-after_write :
      (l : Leader F D) (now idx : ℕ) (r : Replication D) (result : WriteResult)
      → (after_write l now idx r result).0 ≡ some ok
      → result ≡ ok
  unfolding after_write
  ok-after_write l now idx r ok h = refl
  ok-after_write l now idx r unavailable h = absurd (cc)
  ok-after_write l now idx r timeout h = absurd (cc)

  after_write-applies :
      (l : Leader F D) (now idx : ℕ) (r : Replication D) (e : WalEntry)
      → read_entry r.wal idx ≡ some e
      → (after_write l now idx r ok).0 ≡ some ok
      → (apply_wal_entry l.coord now e ≡ some (after_write l now idx r ok).1.coord)
        × ((after_write l now idx r ok).1.repl ≡ r)
  unfolding after_write on_commit
  after_write-applies l now idx r e found h = elim (Option-cases (apply_wal_entry l.coord now e)) [
    | inl bad ↦
        let failed : (after_write l now idx r ok).0 ≡ none =
          rw (found, after_write, on_commit, bad) refl in
        absurd (cc)
    | inr (c, good) ↦ rw (found, after_write, on_commit, good) (refl, refl)
  ]

  -- The leader holds the log `es` and has room for `n` entries more.
  pub record IsReady (l : Leader F D) (es : List WalEntry) (n : ℕ) : Type 0 where
    pub log : IsLog l.repl.wal es
    pub room : l.repl.wal.last_index + n < u64
    pub term_fits : l.repl.term < u64

  -- The leader once the wait for an entry at the end of the log is over.
  settled :
      (l : Leader F D) (es : List WalEntry) (n now idx : ℕ) (r : Replication D)
      (result : WriteResult) (w : Wal D) (e : WalEntry)
      → (r.wal ≡ commit w idx) × (r.term < u64)
      → IsLog w (es ++ e ∷ [])
      → idx ≡ suc (length es)
      → w.last_index + n < u64
      → result ≡ ok
      → (after_write l now idx r result).0 ≡ some ok
      → (apply_wal_entry l.coord now e ≡ some (after_write l now idx r result).1.coord)
        × IsReady (after_write l now idx r result).1 (es ++ e ∷ []) n
  settled l es n now idx r result w e (same_wal, fits) log at room is_ok done =
      let size : length (es ++ e ∷ []) ≡ suc (length es) =
        omega (arith, length-append es (e ∷ [])) in
      let whole : IsLog r.wal (es ++ e ∷ []) =
        subst (λ x. IsLog x (es ++ e ∷ [])) (sym same_wal)
          (commit-IsLog laws w (es ++ e ∷ []) idx log (omega (arith, log.counted))).0 in
      let found : read_entry r.wal idx ≡ some e =
        ap (read_entry r.wal) at
        ∙ whole.entries (length es) (omega arith)
        ∙ get_elem?-append_last es e in
      let done_ok : (after_write l now idx r ok).0 ≡ some ok =
        subst (λ x. (after_write l now idx r x).0 ≡ some ok) is_ok done in
      let applied = after_write-applies l now idx r e found done_ok in
      let here : IsReady (record { coord = (after_write l now idx r ok).1.coord; repl = r })
          (es ++ e ∷ []) n =
        record {
          log = whole;
          room = omega (arith, whole.counted, log.counted, room);
          term_fits = fits;
        } in
      subst
        (λ x.
          (apply_wal_entry l.coord now e ≡ some (after_write l now idx r x).1.coord)
          × IsReady (after_write l now idx r x).1 (es ++ e ∷ []) n)
        (sym is_ok)
        (
          applied.0,
          subst
              (λ x.
                IsReady (record { coord = (after_write l now idx r ok).1.coord; repl = x })
                  (es ++ e ∷ []) n)
              (sym applied.1) here,
        )

  -- When `write` returns OK, the entry stands at the end of the leader's log, under the next index,
  -- and the coordinator is what the entry makes of it.
  pub replicate-ok :
      (l : Leader F D) (es : List WalEntry) (n now : ℕ) (type : WalEntryType) (payload : Bytes)
      (polls : List (List Ack))
      → IsReady l es (suc n)
      → length payload < u32
      → IsTyped type
      → (replicate l now type payload polls).0 ≡ some ok
      → let entry : WalEntry = record {
        log_index = l.repl.wal.last_index + 1;
        term = l.repl.term;
        type = type;
        payload = payload;
      } in
        (apply_wal_entry l.coord now entry ≡ some (replicate l now type payload polls).1.coord)
        × IsReady (replicate l now type payload polls).1 (es ++ entry ∷ []) n
  unfolding replicate write
  replicate-ok l es n now type payload polls ready short typed done =
      elim (Option-cases (append l.repl.wal type l.repl.term payload).0) [
        | inl failed ↦
            let thrown : (replicate l now type payload polls).0 ≡ none =
              rw (failed, replicate, write) refl in
            absurd (cc)
        | inr (idx, wrote) ↦ appended idx wrote
      ]
    where
      entry : WalEntry
      entry = record {
        log_index = l.repl.wal.last_index + 1;
        term = l.repl.term;
        type = type;
        payload = payload;
      }

      writes :
          (idx : ℕ)
          → (append l.repl.wal type l.repl.term payload).0 ≡ some idx
          → let r : Replication D = record l.repl {
            wal = (append l.repl.wal type l.repl.term payload).1;
            ack_counts = set_acks idx 0 l.repl.ack_counts;
          } in
            let waited = wait_quorum r idx (majority_needed l.repl) polls in
            write l.repl type payload polls ≡ (some (waited.0, idx), waited.1)
      writes idx wrote = rw (wrote, write) refl

      appended :
          (idx : ℕ)
          → (append l.repl.wal type l.repl.term payload).0 ≡ some idx
          → (apply_wal_entry l.coord now entry ≡ some (replicate l now type payload polls).1.coord)
            × IsReady (replicate l now type payload polls).1 (es ++ entry ∷ []) n
      appended idx wrote =
          let (at, log) =
            append-IsLog laws l.repl.wal es type l.repl.term payload idx ready.log
              (omega (arith, ready.room)) ready.term_fits short typed wrote in
          let r : Replication D = record l.repl {
            wal = (append l.repl.wal type l.repl.term payload).1;
            ack_counts = set_acks idx 0 l.repl.ack_counts;
          } in
          let waited = wait_quorum r idx (majority_needed l.repl) polls in
          let same : replicate l now type payload polls ≡ after_write l now idx waited.1 waited.0 =
            ap
              (λ x. elim x.0 as (λ _. Option WriteResult × Leader F D) [
                | none ↦ (none, record l { repl = x.1 })
                | some (result, i) ↦ after_write l now i x.1 result
              ])
              (writes idx wrote) in
          let done' : (after_write l now idx waited.1 waited.0).0 ≡ some ok =
            ap (λ x. x.0) (sym same) ∙ done in
          let is_ok = ok-after_write l now idx waited.1 waited.0 done' in
          let kept = wait-ok r idx (majority_needed l.repl) polls is_ok in
          rw same (
            settled l es n now idx waited.1 waited.0 r.wal entry
              (kept.0, subst (λ t. t < u64) (sym kept.1) ready.term_fits)
              (subst (λ i. IsLog r.wal (es ++ (record entry { log_index = i }) ∷ [])) at log)
              (omega (arith, at, ready.log.counted))
              (omega (
                arith,
                log.counted,
                length-append es ((record entry { log_index = idx }) ∷ []),
                ready.log.counted,
                ready.room,
              ))
              is_ok done')
