-- ===== src/Wal/Log.antt =====
-- The log as the list of its entries, in order: what `append`, `commit`, `read_entry` and `replay`
-- do to it. Entry i + 1 of the database is element i of the list.
use final_project_nimbusvaul.Base.{
  ℕ, zero, suc, ◌+◌, ◌%◌, ◌≤◌, ◌<◌, ◌≡◌, ◌≢◌, refl, true, List, [], ◌∷◌, ◌++◌, Option, none, some,
  Bytes, ltb, u64, u32, length, length-append, take, drop, get_elem?, drop_at, arith, ap,
  get_elem?-append_left, get_elem?-append_last, Bool-cases, inl, inr, sym, ◌∙◌, max, subst,
}
use final_project_nimbusvaul.Base.Endian.{be_bytes, from_be, from_be-64}
use native.Mathlib.Decide.{ℕ_discrete}
use final_project_nimbusvaul.Rocks.{RocksDb, RocksLaws}
use final_project_nimbusvaul.Wal.{
  WalEntryType, WalEntry, Wal, wal_key, cmt_key, last_index_key, committed_key, encode_entry,
  decode_entry, write_entry, append, commit, read_entry, read_from, replay, persist_committed,
}
use final_project_nimbusvaul.Wal.Codec.{IsTyped, IsEncodable, decode-encode}

-- The first byte tells the families of keys apart.
abbrev pub first_byte : Bytes → ℕ
first_byte [] = 0
first_byte (c ∷ s) = c

pub wal_key-injective : (i j : ℕ) → i < u64 → j < u64 → wal_key i ≡ wal_key j → i ≡ j
unfolding wal_key
wal_key-injective i j hi hj e =
    let tails : be_bytes 8 i ≡ be_bytes 8 j = ap (drop 4) e in
    sym (from_be-64 i hi) ∙ ap from_be tails ∙ from_be-64 j hj

pub last_index_key-ne : (i : ℕ) → last_index_key ≢ wal_key i
unfolding wal_key
last_index_key-ne i e = omega (arith, ap first_byte e)

pub committed_key-ne : (i : ℕ) → committed_key ≢ wal_key i
unfolding wal_key
committed_key-ne i e = omega (arith, ap first_byte e)

cmt_key-ne : (j i : ℕ) → cmt_key j ≢ wal_key i
unfolding wal_key cmt_key
cmt_key-ne j i e = omega (arith, ap first_byte e)

module _ {D : Type 0} ⦃db : RocksDb D⦄ where
  -- The log `w` holds the entries `es`.
  pub record IsLog (w : Wal D) (es : List WalEntry) : Type 0 where
    pub fits : w.last_index < u64
    pub counted : w.last_index ≡ length es
    pub bounded : w.committed ≤ w.last_index
    pub entries : (i : ℕ) → i < length es → read_entry w (suc i) ≡ get_elem? es i

  -- What a database holds as entry `i`.
  abbrev entry_at : D → ℕ → Option WalEntry
  entry_at d i = elim (db.get d (wal_key i)) [ none ↦ none | some raw ↦ decode_entry i raw ]

  read-entry_at : (w : Wal D) (i : ℕ) → read_entry w i ≡ entry_at w.store i
  unfolding read_entry
  read-entry_at w i = refl

  pub last_index-commit : (w : Wal D) (idx : ℕ) → (commit w idx).last_index ≡ w.last_index
  unfolding commit persist_committed
  last_index-commit w idx = ground arith

  module _ (laws : RocksLaws db) where
    -- A write under another key than that of an entry.
    entry_at-put_ne :
        (d : D) (k v : Bytes) (i : ℕ) → k ≢ wal_key i → entry_at (db.put d k v).1 i ≡ entry_at d i
    entry_at-put_ne d k v i h = rw (laws.get-put_ne d k (wal_key i) v h, entry_at)

    entry_at-put_self :
        (d : D) (e : WalEntry)
        → IsEncodable e
        → (db.put d (wal_key e.log_index) (encode_entry e)).0 ≡ true
        → entry_at (db.put d (wal_key e.log_index) (encode_entry e)).1 e.log_index ≡ some e
    entry_at-put_self d e h ok =
        rw (laws.get-put_self d (wal_key e.log_index) (encode_entry e) ok, entry_at)
          (decode-encode e h)

    -- The entries after the write of one more.
    entries_after :
        (d : D) (es : List WalEntry) (e : WalEntry)
        → ((i : ℕ) → i < length es → entry_at d (suc i) ≡ get_elem? es i)
        → e.log_index ≡ suc (length es)
        → e.log_index < u64
        → IsEncodable e
        → (db.put d (wal_key e.log_index) (encode_entry e)).0 ≡ true
        → (i : ℕ) → i < length (es ++ e ∷ [])
        → entry_at (db.put d (wal_key e.log_index) (encode_entry e)).1 (suc i)
          ≡ get_elem? (es ++ e ∷ []) i
    entries_after d es e old at fits enc ok i h = elim (ℕ_discrete i (length es)) [
      | yes q ↦
          subst
            (λ k.
              entry_at (db.put d (wal_key e.log_index) (encode_entry e)).1 (suc k)
              ≡ get_elem? (es ++ e ∷ []) k)
            (sym q)
            (subst
              (λ k.
                entry_at (db.put d (wal_key e.log_index) (encode_entry e)).1 k
                ≡ get_elem? (es ++ e ∷ []) (length es))
              at (entry_at-put_self d e enc ok ∙ sym (get_elem?-append_last es e)))
      | no n ↦
          let small : i < length es = omega (arith, length-append es (e ∷ [])) in
          entry_at-put_ne d (wal_key e.log_index) (encode_entry e) (suc i) (λ k.
            absurd (n (omega (arith, wal_key-injective e.log_index (suc i) fits (omega arith) k))))
          ∙ old i small
          ∙ sym (get_elem?-append_left es (e ∷ []) i small)
    ]

    write_entry-IsLog :
        (w : Wal D) (es : List WalEntry) (e : WalEntry) (idx : ℕ)
        → IsLog w es
        → e.log_index ≡ w.last_index + 1
        → e.log_index < u64
        → IsEncodable e
        → (write_entry w e).0 ≡ some idx
        → (idx ≡ e.log_index) × IsLog (write_entry w e).1 (es ++ e ∷ [])
    unfolding write_entry
    write_entry-IsLog w es e idx l at fits enc ok =
        elim (Bool-cases (db.put w.store (wal_key e.log_index) (encode_entry e)).0) [
          | inr bad ↦ absurd (ground arith)
          | inl good ↦ (
            ground arith,
            rw good (record {
              fits = fits;
              counted = omega (arith, l.counted, length-append es (e ∷ []));
              bounded = omega (arith, l.bounded);
              entries = λ i h.
                  read-entry_at _ (suc i)
                  ∙ entry_at-put_ne _ last_index_key _ (suc i) (last_index_key-ne (suc i))
                  ∙ entries_after w.store es e
                      (λ j q. sym (read-entry_at w (suc j)) ∙ l.entries j q)
                      (omega (arith, l.counted)) fits enc good i h;
            }),
          )
        ]

    -- An append that returns an index adds its entry at the end of the log, under that index, and
    -- touches no other entry.
    pub append-IsLog :
        (w : Wal D) (es : List WalEntry) (type : WalEntryType) (term : ℕ) (payload : Bytes)
        (idx : ℕ)
        → IsLog w es
        → w.last_index + 1 < u64
        → term < u64
        → length payload < u32
        → IsTyped type
        → (append w type term payload).0 ≡ some idx
        → (idx ≡ w.last_index + 1)
          × IsLog
              (append w type term payload).1
              (es ++ (record { log_index = idx; term = term; type = type; payload = payload }) ∷ [])
    append-IsLog w es type term payload idx l room ht hp hty ok =
        let at : (w.last_index + 1) % u64 ≡ w.last_index + 1 = omega arith in
        let e : WalEntry = record {
          log_index = (w.last_index + 1) % u64;
          term = term;
          type = type;
          payload = payload;
        } in
        let enc : IsEncodable e = record { term_fits = ht; payload_fits = hp; typed = hty } in
        let (same_idx, log) =
          write_entry-IsLog w es e idx l at (omega arith) enc (unfold append in ok) in
        (
          same_idx ∙ at,
          subst
              (λ k. IsLog (append w type term payload).1 (
                es ++ (record { log_index = k; term = term; type = type; payload = payload }) ∷ []))
              (sym same_idx) (unfold append in log),
        )

    -- A commit within the log moves the watermark up to its index, never down, and keeps the log.
    pub commit-IsLog :
        (w : Wal D) (es : List WalEntry) (idx : ℕ)
        → IsLog w es
        → idx ≤ w.last_index
        → IsLog (commit w idx) es × ((commit w idx).committed ≡ max w.committed idx)
    unfolding commit persist_committed
    commit-IsLog w es idx l h = elim (Bool-cases (ltb w.committed idx)) [
      | inl up ↦ rw up (
        record {
          fits = l.fits;
          counted = l.counted;
          bounded = h;
          entries = λ i q.
              read-entry_at _ (suc i)
              ∙ entry_at-put_ne _ committed_key _ (suc i) (committed_key-ne (suc i))
              ∙ entry_at-put_ne w.store (cmt_key idx) _ (suc i) (cmt_key-ne idx (suc i))
              ∙ sym (read-entry_at w (suc i))
              ∙ l.entries i q;
        },
        ground arith,
      )
      | inr keep ↦ rw keep (
        record {
          fits = l.fits;
          counted = l.counted;
          bounded = l.bounded;
          entries = λ i q.
              read-entry_at _ (suc i)
              ∙ entry_at-put_ne w.store (cmt_key idx) _ (suc i) (cmt_key-ne idx (suc i))
              ∙ sym (read-entry_at w (suc i))
              ∙ l.entries i q;
        },
        ground arith,
      )
    ]

  pub read_from-drop :
      (w : Wal D) (es : List WalEntry) (n i : ℕ)
      → IsLog w es
      → i + n ≤ length es
      → read_from w (suc i) n ≡ take n (drop i es)
  unfolding read_from
  read_from-drop w es zero i l h = refl
  read_from-drop w es (suc n) i l h =
      let (e, at, step) = drop_at es i (omega arith) in
      let ih = read_from-drop w es n (suc i) l (omega arith) in
      let next : suc i + 1 ≡ suc (suc i) = omega arith in
      rw (l.entries i (omega arith) ∙ at, read_from, step)
        (ap (λ t. e ∷ t) (ap (λ k. read_from w k n) next ∙ ih))

  -- The server that starts is handed the committed entries, each once, in the order of the log.
  pub replay-committed :
      (w : Wal D) (es : List WalEntry) → IsLog w es → replay w ≡ take w.committed es
  unfolding replay
  replay-committed w es l =
      read_from-drop w es w.committed 0 l (omega (arith, l.bounded, l.counted))
