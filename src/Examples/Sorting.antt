-- ===== src/Examples/Sorting.antt =====
-- Insertion sort in the place of `std::sort`.
use final_project_nimbusvaul.Base.{
  ℕ, zero, suc, ◌≤◌, ◌≡◌, refl, Bool, List, [], ◌∷◌, some, leb, arith, if◌then◌else◌, get_elem?,
  All, if_elim, leb-false→lt,
}
use final_project_nimbusvaul.History.Ranks.{count_if, IsSort}

unfoldable pub put_in : ℕ → List ℕ → List ℕ
put_in x [] = x ∷ []
put_in x (y ∷ s) = if leb x y then x ∷ y ∷ s else y ∷ put_in x s

unfoldable pub insertion_sort : List ℕ → List ℕ
unfolding put_in
insertion_sort [] = []
insertion_sort (x ∷ s) = put_in x (insertion_sort s)

-- Each entry is at most every later one.
abbrev IsAscending : List ℕ → Type 0
IsAscending [] = Unit
IsAscending (x ∷ s) = All (λ y. x ≤ y) s × IsAscending s

All-put_in : (x z : ℕ) (s : List ℕ) → x ≤ z → All (λ y. x ≤ y) s → All (λ y. x ≤ y) (put_in z s)
unfolding put_in
All-put_in x z [] h a = (h, tt)
All-put_in x z (y ∷ s) h a =
    if_elim (All (λ w. x ≤ w)) (leb z y) _ _ (λ e. (h, a)) (λ e. (a.0, All-put_in x z s h a.1))

All-weaken : (x z : ℕ) (s : List ℕ) → x ≤ z → All (λ y. z ≤ y) s → All (λ y. x ≤ y) s
All-weaken x z [] h a = tt
All-weaken x z (y ∷ s) h a = (omega (arith, a.0), All-weaken x z s h a.1)

put_in-IsAscending : (x : ℕ) (s : List ℕ) → IsAscending s → IsAscending (put_in x s)
unfolding put_in
put_in-IsAscending x [] a = (tt, tt)
put_in-IsAscending x (y ∷ s) a =
    if_elim IsAscending (leb x y) _ _
      (λ e. let le : x ≤ y = ground (arith, e) in ((le, All-weaken x y s le a.0), a))
      (λ e. (All-put_in y x s (omega (arith, leb-false→lt x y e)) a.0, put_in-IsAscending x s a.1))

sort-IsAscending : (s : List ℕ) → IsAscending (insertion_sort s)
unfolding insertion_sort
sort-IsAscending [] = tt
sort-IsAscending (x ∷ s) = put_in-IsAscending x (insertion_sort s) (sort-IsAscending s)

All-at : (x : ℕ) (s : List ℕ) (j y : ℕ) → All (λ z. x ≤ z) s → get_elem? s j ≡ some y → x ≤ y
All-at x [] j y a e = absurd (cc)
All-at x (z ∷ s) zero y a e = let is : z ≡ y = cc in omega (arith, a.0, is)
All-at x (z ∷ s) (suc j) y a e = All-at x s j y a.1 e

ascending_at :
    (s : List ℕ) (i j x y : ℕ)
    → IsAscending s
    → i ≤ j
    → get_elem? s i ≡ some x
    → get_elem? s j ≡ some y
    → x ≤ y
ascending_at [] i j x y a h e f = absurd (cc)
ascending_at (z ∷ s) zero zero x y a h e f = let is : x ≡ y = cc in omega (arith, is)
ascending_at (z ∷ s) zero (suc j) x y a h e f =
    let is : z ≡ x = cc in omega (arith, is, All-at z s j y a.0 f)
ascending_at (z ∷ s) (suc i) zero x y a h e f = absurd (omega arith)
ascending_at (z ∷ s) (suc i) (suc j) x y a h e f = ascending_at s i j x y a.1 (omega arith) e f

count-put_in :
    (test : ℕ → Bool) (x : ℕ) (s : List ℕ) → count_if test (put_in x s) ≡ count_if test (x ∷ s)
unfolding put_in count_if
count-put_in test x [] = refl
count-put_in test x (y ∷ s) = ground (arith, count-put_in test x s)

count-sort : (test : ℕ → Bool) (s : List ℕ) → count_if test (insertion_sort s) ≡ count_if test s
unfolding insertion_sort count_if
count-sort test [] = refl
count-sort test (x ∷ s) = ground (arith, count-put_in test x (insertion_sort s), count-sort test s)

pub insertion_sort-IsSort : IsSort insertion_sort
insertion_sort-IsSort = record {
  ascending = λ l i j x y h e f. ascending_at (insertion_sort l) i j x y (sort-IsAscending l) h e f;
  same_counts = λ l test. count-sort test l;
}
