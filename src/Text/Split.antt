-- ===== src/Text/Split.antt =====
-- The splitting loops: `split_nonempty` of recovery.cpp and meta_server.cpp, `split_csv` and the
-- `;` loop of meta_snapshot.cpp, and the search for `=` in a replica entry.
pub mod Laws
use final_project_nimbusvaul.Base.{
  ℕ, Bool, true, false, [], ◌∷◌, ◌++◌, List, Bytes, ◌==◌, codes, refl, ◌≡◌, Option, none, some,
}

-- `if (!cur.empty()) out.push_back(cur);`
unfoldable pub push_nonempty : List Bytes → Bytes → List Bytes
push_nonempty out [] = out
push_nonempty out (c ∷ s) = out ++ (c ∷ s) ∷ []

unfoldable pub nonempty_loop : ℕ → List Bytes → Bytes → Bytes → List Bytes
nonempty_loop delim out cur [] = push_nonempty out cur
nonempty_loop delim out cur (c ∷ s) = elim (c == delim) [
  | true ↦ nonempty_loop delim (push_nonempty out cur) [] s
  | false ↦ nonempty_loop delim out (cur ++ c ∷ []) s
]

-- Fields between delimiters, the empty ones dropped.
unfoldable pub split_nonempty : Bytes → ℕ → List Bytes
unfolding push_nonempty nonempty_loop
split_nonempty s delim = nonempty_loop delim [] [] s

-- Every field that a delimiter ends, and the last one if it is not empty.
unfoldable pub fields_loop : ℕ → List Bytes → Bytes → Bytes → List Bytes
fields_loop delim out cur [] = push_nonempty out cur
fields_loop delim out cur (c ∷ s) = elim (c == delim) [
  | true ↦ fields_loop delim (out ++ cur ∷ []) [] s
  | false ↦ fields_loop delim out (cur ++ c ∷ []) s
]

unfoldable pub split_fields : Bytes → ℕ → List Bytes
unfolding push_nonempty fields_loop
split_fields s delim = fields_loop delim [] [] s

-- `for (auto& n : ns) s += n + ",";`
unfoldable pub comma_list : List Bytes → Bytes
comma_list [] = []
comma_list (n ∷ ns) = n ++ b',' ∷ comma_list ns

-- `entry.substr(0, eq)` and `entry.substr(eq + 1)` for the first `=`; `none` if there is none.
unfoldable pub split_eq : Bytes → Option (Bytes × Bytes)
split_eq [] = none
split_eq (c ∷ s) = elim (c == b'=') [
  | true ↦ some ([], s)
  | false ↦ elim (split_eq s) [ none ↦ none | some (a, b) ↦ some (c ∷ a, b) ]
]

split_nonempty_test : split_nonempty (codes "a||bc|") b'|' ≡ codes "a" ∷ codes "bc" ∷ []
unfolding split_nonempty
split_nonempty_test = refl

split_fields_test :
    split_fields (codes "a;;bc;d") b';' ≡ codes "a" ∷ [] ∷ codes "bc" ∷ codes "d" ∷ []
unfolding split_fields
split_fields_test = refl

split_eq_test : split_eq (codes "sn1=h:1=2") ≡ some (codes "sn1", codes "h:1=2")
unfolding split_eq
split_eq_test = refl
