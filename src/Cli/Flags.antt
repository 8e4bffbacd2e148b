-- ===== src/Cli/Flags.antt =====
-- The command line: the two ways to write a flag, and the list of the nodes' addresses.
use final_project_nimbusvaul.Base.{
  ◌≡◌, ◌≢◌, refl, ap, sym, ◌∙◌, Bool, true, false, List, [], ◌∷◌, ◌++◌, Option, none, some, Bytes,
  codes, same, arith, if◌then◌else◌, All, All-append, Lacks, map, append_assoc, append-nil,
  Option-cases, inl, inr,
}
use final_project_nimbusvaul.Base.Table.{Table, find, insert, find-insert}
use final_project_nimbusvaul.Text.Split.{split_fields, fields_loop}
use final_project_nimbusvaul.Text.Split.Laws.{fields_cons, fields_end, fields_nil, split_eq-append}
use final_project_nimbusvaul.Cli.{Options, parse_flags, add_nodes, parse_nodes}

-- A value behind a flag and a value behind '=' mean the same, whatever arguments follow.
pub parse_flags-joined :
    (o : Options) (v : Bytes) (args : List Bytes)
    → (parse_flags o (codes "--meta" ∷ v ∷ args) ≡ parse_flags o ((codes "--meta=" ++ v) ∷ args))
      × (parse_flags o (codes "--nodes" ∷ v ∷ args)
          ≡ parse_flags o ((codes "--nodes=" ++ v) ∷ args))
unfolding parse_flags same
parse_flags-joined o v [] = (refl, refl)
parse_flags-joined o v (a ∷ args) = (refl, refl)

abbrev pub node_item : Bytes × Bytes → Bytes
node_item p = p.0 ++ b'=' ∷ p.1

-- The items with commas between them.
unfoldable pub node_list : List (Bytes × Bytes) → Bytes
node_list [] = []
node_list (p ∷ []) = node_item p
node_list (p ∷ q ∷ ps) = node_item p ++ b',' ∷ node_list (q ∷ ps)

-- The address that the last pair with the id gives.
unfoldable pub last_addr : Bytes → List (Bytes × Bytes) → Option Bytes
last_addr k [] = none
last_addr k (p ∷ ps) = elim (last_addr k ps) [
  | some found ↦ some found
  | none ↦ if same p.0 k then some p.1 else none
]

-- An id without '=' and ',', and an address without ','.
abbrev pub IsNode : Bytes × Bytes → Type 0
IsNode p = Lacks b'=' p.0 × Lacks b',' p.0 × Lacks b',' p.1

item-Lacks : (p : Bytes × Bytes) → IsNode p → Lacks b',' (node_item p)
item-Lacks p h =
    All-append (λ c. c ≢ b',') p.0 (b'=' ∷ p.1) h.1 ((λ e. absurd (omega (arith, e))), h.2)

item-ne-nil : (p : Bytes × Bytes) → node_item p ≢ []
item-ne-nil p e = no_end p.0 e
  where
    no_end : (a : Bytes) → a ++ b'=' ∷ p.1 ≢ []
    no_end [] q = cc
    no_end (c ∷ a) q = cc

list-fields :
    (ps : List (Bytes × Bytes)) (out : List Bytes)
    → All IsNode ps
    → fields_loop b',' out [] (node_list ps) ≡ out ++ map node_item ps
unfolding node_list
list-fields [] out h = fields_nil b',' out ∙ sym (append-nil out)
list-fields (p ∷ []) out h = fields_end b',' (node_item p) (item-Lacks p h.0) (item-ne-nil p) out
list-fields (p ∷ q ∷ ps) out h =
    fields_cons b',' (node_item p) (node_list (q ∷ ps)) (item-Lacks p h.0) out
    ∙ list-fields (q ∷ ps) (out ++ node_item p ∷ []) h.1
    ∙ append_assoc out (node_item p ∷ []) (map node_item (q ∷ ps))

find-add_nodes :
    (k : Bytes) (ps : List (Bytes × Bytes)) (t : Table Bytes)
    → All IsNode ps
    → find k (add_nodes t (map node_item ps))
      ≡ (elim (last_addr k ps) [ some found ↦ some found | none ↦ find k t ])
unfolding add_nodes last_addr
find-add_nodes k [] t h = refl
find-add_nodes k (p ∷ ps) t h =
    let split = split_eq-append p.0 p.1 h.0.0 in
    let step : add_nodes t (map node_item (p ∷ ps))
        ≡ add_nodes (insert p.0 p.1 t) (map node_item ps) =
      rw (split, add_nodes) refl in
    ap (find k) step
    ∙ find-add_nodes k ps (insert p.0 p.1 t) h.1
    ∙ elim (Option-cases (last_addr k ps)) [
      | inl other ↦ rw (other, find-insert p.0 k p.1 t) (by_test (same p.0 k))
      | inr (found, at) ↦ rw at refl
    ]
  where
    by_test :
        (b : Bool)
        → (if b then some p.1 else find k t)
          ≡ (elim (if b then some p.1 else none) [ some found ↦ some found | none ↦ find k t ])
    by_test true = refl
    by_test false = refl

same_option : (o : Option Bytes) → (elim o [ some found ↦ some found | none ↦ none ]) ≡ o
same_option none = refl
same_option (some found) = refl

-- Reading a list of `id=address` items separated by commas: each id gets the address of the last
-- item that names it, and no other id gets one. Ids have no '=' or ',', addresses no ','.
pub parse-node_list :
    (ps : List (Bytes × Bytes)) (k : Bytes)
    → All IsNode ps
    → find k (parse_nodes (node_list ps)) ≡ last_addr k ps
unfolding parse_nodes split_fields
parse-node_list ps k h =
    ap (λ items. find k (add_nodes [] items)) (list-fields ps [] h)
    ∙ find-add_nodes k ps [] h
    ∙ unfold find in same_option (last_addr k ps)
