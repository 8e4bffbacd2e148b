-- ===== src/Recovery/Covers.antt =====
-- The cleanup reaches exactly the puts behind the watermark.
use final_project_nimbusvaul.Base.{
  ℕ, zero, refl, ◌+◌, ◌-◌, ◌≡◌, ◌∙◌, ap, List, [], ◌∷◌, length, take, drop, arith, length-drop, suc,
}
use final_project_nimbusvaul.Rocks.{RocksDb}
use final_project_nimbusvaul.Wal.{WalEntry, Wal, read_from}
use final_project_nimbusvaul.Wal.Log.{IsLog, read_from-drop}
use final_project_nimbusvaul.Coordinator.{Coordinator, get_alive_nodes}
use final_project_nimbusvaul.Recovery.{cleanup_entries, cleanup_uncommitted_puts}

all_of : (n : ℕ) (es : List WalEntry) → n ≡ length es → take n es ≡ es
all_of zero [] h = refl
all_of zero (e ∷ es) h = absurd (omega arith)
all_of (suc n) [] h = refl
all_of (suc n) (e ∷ es) h = ap (λ t. e ∷ t) (all_of n es (omega arith))

module _ {F D : Type 0} ⦃db : RocksDb D⦄ where
  -- On a log, the cleanup deletes for exactly the entries behind the committed ones, in their
  -- order, and for none that is committed.
  pub cleanup-uncommitted :
      (w : Wal D) (es : List WalEntry) (c : Coordinator F)
      → IsLog w es
      → cleanup_uncommitted_puts w c ≡ cleanup_entries (get_alive_nodes c) (drop w.committed es)
  unfolding cleanup_uncommitted_puts
  cleanup-uncommitted w es c l =
      let n = w.last_index - w.committed in
      let at : w.committed + 1 ≡ suc w.committed = omega arith in
      let few = read_from-drop w es n w.committed l (omega (arith, l.bounded, l.counted)) in
      let whole =
        all_of n (drop w.committed es) (omega (arith, length-drop w.committed es, l.counted)) in
      ap (cleanup_entries (get_alive_nodes c)) (ap (λ k. read_from w k n) at ∙ few ∙ whole)
