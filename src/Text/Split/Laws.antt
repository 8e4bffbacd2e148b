-- ===== src/Text/Split/Laws.antt =====
-- What the splitting loops return on text that was put together from fields.
use final_project_nimbusvaul.Base.{
  ℕ, true, false, [], ◌∷◌, ◌++◌, List, Bytes, ◌==◌, refl, ◌≡◌, ◌≢◌, none, some, arith, append_assoc,
  append-nil, All, All-append, Lacks, ◌∙◌, sym, ap,
}
use final_project_nimbusvaul.Text.Split.{
  push_nonempty, nonempty_loop, split_nonempty, fields_loop, comma_list, split_eq,
}

eq_self : (c : ℕ) → (c == c) ≡ true
eq_self c = ground arith

eq_ne : (c d : ℕ) → c ≢ d → (c == d) ≡ false
eq_ne c d h = ground arith

push-ne-nil : (out : List Bytes) (w : Bytes) → w ≢ [] → push_nonempty out w ≡ out ++ w ∷ []
unfolding push_nonempty
push-ne-nil out [] h = absurd (h refl)
push-ne-nil out (c ∷ w) h = refl

-- One field and its delimiter.
nonempty_field :
    (d : ℕ) (out : List Bytes) (cur w s : Bytes)
    → Lacks d w
    → nonempty_loop d out cur (w ++ d ∷ s) ≡ nonempty_loop d (push_nonempty out (cur ++ w)) [] s
unfolding nonempty_loop
nonempty_field d out cur [] s h = rw (eq_self d, append-nil cur, nonempty_loop)
nonempty_field d out cur (c ∷ w) s h =
    rw (eq_ne c d h.0, nonempty_loop)
      (nonempty_field d out (cur ++ c ∷ []) w s h.1
        ∙ ap (λ x. nonempty_loop d (push_nonempty out x) [] s) (append_assoc cur (c ∷ []) w))

fields_field :
    (d : ℕ) (out : List Bytes) (cur w s : Bytes)
    → Lacks d w
    → fields_loop d out cur (w ++ d ∷ s) ≡ fields_loop d (out ++ (cur ++ w) ∷ []) [] s
unfolding fields_loop
fields_field d out cur [] s h = rw (eq_self d, append-nil cur, fields_loop)
fields_field d out cur (c ∷ w) s h =
    rw (eq_ne c d h.0, fields_loop)
      (fields_field d out (cur ++ c ∷ []) w s h.1
        ∙ ap (λ x. fields_loop d (out ++ x ∷ []) [] s) (append_assoc cur (c ∷ []) w))

-- The last field, with no delimiter behind it.
nonempty_last :
    (d : ℕ) (out : List Bytes) (cur w : Bytes)
    → Lacks d w
    → nonempty_loop d out cur w ≡ push_nonempty out (cur ++ w)
unfolding nonempty_loop
nonempty_last d out cur [] h = rw (append-nil cur)
nonempty_last d out cur (c ∷ w) h =
    rw (eq_ne c d h.0, nonempty_loop)
      (nonempty_last d out (cur ++ c ∷ []) w h.1
        ∙ ap (push_nonempty out) (append_assoc cur (c ∷ []) w))

fields_last :
    (d : ℕ) (out : List Bytes) (cur w : Bytes)
    → Lacks d w
    → fields_loop d out cur w ≡ push_nonempty out (cur ++ w)
unfolding fields_loop
fields_last d out cur [] h = rw (append-nil cur)
fields_last d out cur (c ∷ w) h =
    rw (eq_ne c d h.0, fields_loop)
      (fields_last d out (cur ++ c ∷ []) w h.1
        ∙ ap (push_nonempty out) (append_assoc cur (c ∷ []) w))

-- `split_nonempty` on two or more fields: the first is split off.
pub nonempty_cons :
    (d : ℕ) (w s : Bytes)
    → Lacks d w
    → w ≢ []
    → (out : List Bytes)
    → nonempty_loop d out [] (w ++ d ∷ s) ≡ nonempty_loop d (out ++ w ∷ []) [] s
nonempty_cons d w s h ne out =
    nonempty_field d out [] w s h ∙ ap (λ x. nonempty_loop d x [] s) (push-ne-nil out w ne)

pub nonempty_end :
    (d : ℕ) (w : Bytes)
    → Lacks d w
    → w ≢ []
    → (out : List Bytes) → nonempty_loop d out [] w ≡ out ++ w ∷ []
nonempty_end d w h ne out = nonempty_last d out [] w h ∙ push-ne-nil out w ne

pub fields_cons :
    (d : ℕ) (w s : Bytes)
    → Lacks d w
    → (out : List Bytes) → fields_loop d out [] (w ++ d ∷ s) ≡ fields_loop d (out ++ w ∷ []) [] s
fields_cons d w s h out = fields_field d out [] w s h

pub fields_end :
    (d : ℕ) (w : Bytes)
    → Lacks d w
    → w ≢ []
    → (out : List Bytes) → fields_loop d out [] w ≡ out ++ w ∷ []
fields_end d w h ne out = fields_last d out [] w h ∙ push-ne-nil out w ne

pub fields_nil : (d : ℕ) (out : List Bytes) → fields_loop d out [] [] ≡ out
unfolding fields_loop push_nonempty
fields_nil d out = refl

-- An entry of a comma list: not empty, and no comma in it.
abbrev pub IsItem : Bytes → Type 0
IsItem w = (w ≢ []) × Lacks b',' w

comma_loop :
    (ns out : List Bytes) → All IsItem ns → nonempty_loop b',' out [] (comma_list ns) ≡ out ++ ns
unfolding comma_list
comma_loop [] out h = unfold nonempty_loop push_nonempty in sym (append-nil out)
comma_loop (n ∷ ns) out h =
    nonempty_cons b',' n (comma_list ns) h.0.1 h.0.0 out
    ∙ comma_loop ns (out ++ n ∷ []) h.1
    ∙ append_assoc out (n ∷ []) ns

-- A list of entries is read back from its comma form.
pub split-comma_list : (ns : List Bytes) → All IsItem ns → split_nonempty (comma_list ns) b',' ≡ ns
unfolding split_nonempty
split-comma_list ns h = comma_loop ns [] h

-- A delimiter that no entry has is not in the comma form.
pub Lacks-comma_list :
    (d : ℕ) (ns : List Bytes) → d ≢ b',' → All (Lacks d) ns → Lacks d (comma_list ns)
unfolding comma_list
Lacks-comma_list d [] h a = tt
Lacks-comma_list d (n ∷ ns) h a =
    All-append _ n _ a.0 ((λ e. h (sym e)), Lacks-comma_list d ns h a.1)

pub comma_list-ne-nil : (n : Bytes) (ns : List Bytes) → comma_list (n ∷ ns) ≢ []
unfolding comma_list
comma_list-ne-nil [] ns e = cc
comma_list-ne-nil (c ∷ n) ns e = cc

-- The search for `=` finds the end of a node id that has none.
pub split_eq-append : (a b : Bytes) → Lacks b'=' a → split_eq (a ++ b'=' ∷ b) ≡ some (a, b)
unfolding split_eq
split_eq-append [] b h = refl
split_eq-append (c ∷ a) b h = rw (eq_ne c b'=' h.0, split_eq, split_eq-append a b h.1)

pub split_eq-none : (a : Bytes) → Lacks b'=' a → split_eq a ≡ none
unfolding split_eq
split_eq-none [] h = refl
split_eq-none (c ∷ a) h = rw (eq_ne c b'=' h.0, split_eq, split_eq-none a h.1)
