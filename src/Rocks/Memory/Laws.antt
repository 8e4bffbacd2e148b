-- ===== src/Rocks/Memory/Laws.antt =====
-- The laws of RocksDB hold of the database in memory.
use final_project_nimbusvaul.Base.{
  ◌≡◌, ◌≢◌, refl, true, false, [], ◌∷◌, Option, none, some, Bytes, same, arith, same_iff, same_refl,
  if◌then◌else◌, Bool-cases, Option-cases, inl, inr, sym, ◌∙◌, subst, false≢true,
}
use final_project_nimbusvaul.Base.Table.{find, insert, find-insert}
use final_project_nimbusvaul.Base.Order.{key_leb, key_leb_refl, key_leb_trans, key_leb_total}
use final_project_nimbusvaul.Rocks.{RocksLaws, in_range}
use final_project_nimbusvaul.Rocks.Memory.{
  Memory, memory, delete_in, seek, better, best_key, with_value,
}

find-delete_in :
    (a b j : Bytes) (t : Memory)
    → find j (delete_in a b t) ≡ (if in_range a b j then none else find j t)
unfolding find delete_in
find-delete_in a b j [] = ground arith
find-delete_in a b j ((i, v) ∷ t) = elim (Bool-cases (same i j)) [
  | inl e ↦
      let q = (same_iff i j).0 e in rw q (ground (arith, find-delete_in a b j t, same_iff j j))
  | inr e ↦ ground (arith, find-delete_in a b j t)
]

abbrev IsBest : Bytes → Memory → Option Bytes → Type 0
IsBest k t none = (i : Bytes) → find i t ≢ none → key_leb i k ≡ false
IsBest k t (some j) =
    (find j t ≢ none)
    × (key_leb j k ≡ true)
    × ((i : Bytes) → find i t ≢ none → key_leb i k ≡ true → key_leb i j ≡ true)

-- A key of a longer table is the new one or an old one.
find-cons_cases :
    (P : Bytes → Type 0) (i v : Bytes) (t : Memory) (j : Bytes)
    → find j ((i, v) ∷ t) ≢ none
    → P i
    → (find j t ≢ none → P j)
    → P j
unfolding find
find-cons_cases P i v t j h p q = elim (Bool-cases (same i j)) [
  | inl e ↦ subst P ((same_iff i j).0 e) p
  | inr e ↦ q (λ n. h (rw e n))
]

find-cons_new : (i v : Bytes) (t : Memory) → find i ((i, v) ∷ t) ≢ none
unfolding find
find-cons_new i v t = ground (arith, same_iff i i)

find-cons_old : (i v j : Bytes) (t : Memory) → find j t ≢ none → find j ((i, v) ∷ t) ≢ none
unfolding find
find-cons_old i v j t h = ground arith

better-IsBest :
    (k i v : Bytes) (t : Memory) (o : Option Bytes)
    → IsBest k t o
    → IsBest k ((i, v) ∷ t) (better k i o)
unfolding better
better-IsBest k i v t none h = elim (Bool-cases (key_leb i k)) [
  | inl e ↦ rw e (
    find-cons_new i v t,
    e,
    λ j d l.
        find-cons_cases (λ x. key_leb x k ≡ true → key_leb x i ≡ true) i v t j d
          (λ _. key_leb_refl i) (λ n m. absurd (false≢true (sym (h j n) ∙ m))) l,
  )
  | inr e ↦ rw e (λ j d. find-cons_cases (λ x. key_leb x k ≡ false) i v t j d e (h j))
]
better-IsBest k i v t (some j) h = elim (Bool-cases (key_leb i k)) [
  | inr e ↦ rw e (
    find-cons_old i v j t h.0,
    h.1,
    λ x d l.
        find-cons_cases (λ y. key_leb y k ≡ true → key_leb y j ≡ true) i v t x d
          (λ m. absurd (false≢true (sym e ∙ m))) (h.2 x) l,
  )
  | inl e ↦ elim (Bool-cases (key_leb j i)) [
    | inl f ↦
        rw (e, f)
          (
            find-cons_new i v t,
            e,
            λ x d l.
                find-cons_cases (λ y. key_leb y k ≡ true → key_leb y i ≡ true) i v t x d
                  (λ _. key_leb_refl i) (λ n m. key_leb_trans x j i (h.2 x n m) f) l,
          )
    | inr f ↦
        rw (e, f)
          (
            find-cons_old i v j t h.0,
            h.1,
            λ x d l.
                find-cons_cases (λ y. key_leb y k ≡ true → key_leb y j ≡ true) i v t x d
                  (λ _. key_leb_total j i f) (h.2 x) l,
          )
  ]
]

best_key-IsBest : (k : Bytes) (t : Memory) → IsBest k t (best_key k t)
unfolding best_key
best_key-IsBest k [] = λ i d. absurd (d (unfold find in refl))
best_key-IsBest k ((i, v) ∷ t) = better-IsBest k i v t (best_key k t) (best_key-IsBest k t)

found_memory :
    (t : Memory) (k j v : Bytes) (o : Option Bytes)
    → IsBest k t o
    → with_value t o ≡ some (j, v)
    → (find j t ≡ some v)
      × (key_leb j k ≡ true)
      × ((i : Bytes) → find i t ≢ none → key_leb i k ≡ true → key_leb i j ≡ true)
unfolding with_value
found_memory t k j v none h e = absurd (cc)
found_memory t k j v (some x) h e = elim (Option-cases (find x t)) [
  | inl n ↦ absurd (h.0 n)
  | inr (w, m) ↦
      let q : x ≡ j = ground arith in
      let r : w ≡ v = ground arith in (rw (← q, ← r) m, rw (← q) h.1, rw (← q) h.2)
]

none_memory :
    (t : Memory) (k : Bytes) (o : Option Bytes)
    → IsBest k t o
    → with_value t o ≡ none
    → (i : Bytes) → find i t ≢ none
    → key_leb i k ≡ false
unfolding with_value
none_memory t k none h e = h
none_memory t k (some x) h e = elim (Option-cases (find x t)) [
  | inl n ↦ absurd (h.0 n)
  | inr (w, m) ↦ absurd (ground arith)
]

put_self : (d : Memory) (k v : Bytes) → find k (insert k v d) ≡ some v
put_self d k v = find-insert k k v d ∙ ground (arith, same_refl k)

put_ne : (d : Memory) (k j v : Bytes) → k ≢ j → find j (insert k v d) ≡ find j d
put_ne d k j v h = find-insert k j v d ∙ ground (arith, same_iff k j)

pub memory-laws : RocksLaws memory
unfolding delete_in seek
memory-laws = record {
  get-put_self = λ d k v _. put_self d k v;
  get-put_ne = λ d k j v h. put_ne d k j v h;
  get-delete_range = λ d a b j _. find-delete_in a b j d;
  seek_found = λ d k j v e. found_memory d k j v (best_key k d) (best_key-IsBest k d) e;
  seek_none = λ d k e. none_memory d k (best_key k d) (best_key-IsBest k d) e;
}
