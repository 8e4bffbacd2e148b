-- ===== src/Wal/Reopen.antt =====
-- A server that stops and starts again finds its log where it left it.
use final_project_nimbusvaul.Base.{
  ℕ, ◌<◌, ◌≡◌, ◌≢◌, refl, true, List, [], ◌∷◌, Bytes, codes, ltb, u64, take, drop, arith, ap, All,
  Bool-cases, inl, inr, sym, ◌∙◌, subst,
}
use final_project_nimbusvaul.Base.Endian.{be_bytes, from_be, from_be-64, length-be_bytes}
use final_project_nimbusvaul.Rocks.{RocksDb, RocksLaws}
use final_project_nimbusvaul.Wal.{
  WalEntryType, WalEntry, Wal, wal_key, cmt_key, last_index_key, committed_key, encode_entry,
  write_entry, append, commit, open_wal, persisted, persist_committed,
}
use final_project_nimbusvaul.Wal.Codec.{take_all}
use final_project_nimbusvaul.Wal.Log.{first_byte, committed_key-ne}

pub data WalOp : Type 0 where
  appends : WalEntryType → ℕ → Bytes → WalOp
  commits : ℕ → WalOp

-- A commit names an index that `uint64_t` holds.
abbrev pub IsWord : WalOp → Type 0
IsWord (appends type term payload) = Unit
IsWord (commits idx) = idx < u64

take_be : (n : ℕ) → n < u64 → from_be (take 8 (be_bytes 8 n)) ≡ n
take_be n h =
    let e : take 8 (be_bytes 8 n) ≡ be_bytes 8 n =
      subst (λ k. take k (be_bytes 8 n) ≡ be_bytes 8 n) (length-be_bytes 8 n)
        (take_all (be_bytes 8 n)) in
    ap from_be e ∙ from_be-64 n h

committed_key-ne-last_index_key : committed_key ≢ last_index_key
committed_key-ne-last_index_key e = omega (arith, ap (λ s. first_byte (drop 5 s)) e)

cmt_key-ne_last : (j : ℕ) → cmt_key j ≢ last_index_key
unfolding cmt_key
cmt_key-ne_last j e = omega (arith, ap first_byte e)

cmt_key-ne_committed : (j : ℕ) → cmt_key j ≢ committed_key
unfolding cmt_key
cmt_key-ne_committed j e = omega (arith, ap first_byte e)

module _ {D : Type 0} ⦃db : RocksDb D⦄ where
  unfoldable pub run_op : Wal D → WalOp → Wal D
  run_op w (appends type term payload) = (append w type term payload).1
  run_op w (commits idx) = commit w idx

  unfoldable pub run_ops : Wal D → List WalOp → Wal D
  run_ops w [] = w
  run_ops w (op ∷ ops) = run_ops (run_op w op) ops

  -- The counters in the database are those in memory.
  record IsDurable (w : Wal D) : Type 0 where
    last : persisted w.store last_index_key ≡ w.last_index
    watermark : persisted w.store committed_key ≡ w.committed

  module _ (laws : RocksLaws db)
      (no_failure : (d : D) (k v : Bytes) → (db.put d k v).0 ≡ true) where
    persisted-put_self :
        (d : D) (k : Bytes) (n : ℕ) → n < u64 → persisted (db.put d k (be_bytes 8 n)).1 k ≡ n
    unfolding persisted
    persisted-put_self d k n h =
        rw (laws.get-put_self d k (be_bytes 8 n) (no_failure d k (be_bytes 8 n)), persisted)
          (take_be n h)

    persisted-put_ne :
        (d : D) (k j v : Bytes) → k ≢ j → persisted (db.put d k v).1 j ≡ persisted d j
    unfolding persisted
    persisted-put_ne d k j v h = rw (laws.get-put_ne d k j v h, persisted)

    write_entry-IsDurable :
        (w : Wal D) (e : WalEntry) → e.log_index < u64 → IsDurable w → IsDurable (write_entry w e).1
    unfolding write_entry
    write_entry-IsDurable w e h dw =
        let d = (db.put w.store (wal_key e.log_index) (encode_entry e)).1 in
        rw (no_failure w.store (wal_key e.log_index) (encode_entry e)) (record {
          last = persisted-put_self d last_index_key e.log_index h;
          watermark =
              persisted-put_ne d last_index_key committed_key _
                (λ q. committed_key-ne-last_index_key (sym q))
              ∙ persisted-put_ne w.store (wal_key e.log_index) committed_key _
                  (λ q. committed_key-ne e.log_index (sym q))
              ∙ dw.watermark;
        })

    commit-IsDurable : (w : Wal D) (idx : ℕ) → idx < u64 → IsDurable w → IsDurable (commit w idx)
    unfolding commit persist_committed
    commit-IsDurable w idx h dw =
        let d = (db.put w.store (cmt_key idx) (codes "1")).1 in
        let last_kept : persisted d last_index_key ≡ w.last_index =
          persisted-put_ne w.store (cmt_key idx) last_index_key _ (cmt_key-ne_last idx) ∙ dw.last in
        elim (Bool-cases (ltb w.committed idx)) [
          | inl up ↦ rw up (record {
            last =
                persisted-put_ne d committed_key last_index_key _ committed_key-ne-last_index_key
                ∙ last_kept;
            watermark = persisted-put_self d committed_key idx h;
          })
          | inr keep ↦ rw keep (record {
            last = last_kept;
            watermark =
                persisted-put_ne w.store (cmt_key idx) committed_key _ (cmt_key-ne_committed idx)
                ∙ dw.watermark;
          })
        ]

    run_op-IsDurable : (w : Wal D) (op : WalOp) → IsWord op → IsDurable w → IsDurable (run_op w op)
    unfolding run_op append
    run_op-IsDurable w (appends type term payload) h dw = write_entry-IsDurable w _ (omega arith) dw
    run_op-IsDurable w (commits idx) h dw = commit-IsDurable w idx h dw

    run_ops-IsDurable :
        (w : Wal D) (ops : List WalOp) → All IsWord ops → IsDurable w → IsDurable (run_ops w ops)
    unfolding run_ops
    run_ops-IsDurable w [] h dw = dw
    run_ops-IsDurable w (op ∷ ops) h dw =
        run_ops-IsDurable (run_op w op) ops h.1 (run_op-IsDurable w op h.0 dw)

    -- Where no write fails: after any appends and commits on a log that was opened, opening the
    -- database again gives the same log, its last index and its committed index.
    pub reopen :
        (d : D) (ops : List WalOp)
        → All IsWord ops
        → open_wal (run_ops (open_wal d) ops).store ≡ run_ops (open_wal d) ops
    unfolding open_wal
    reopen d ops h =
        let w = run_ops (open_wal d) ops in
        let dw : IsDurable w =
          run_ops-IsDurable (open_wal d) ops h (record { last = refl; watermark = refl }) in
        λ i. record { store = w.store; last_index = dw.last i; committed = dw.watermark i }
