-- ===== src/Client/Stubs.antt =====
-- The client's table of stubs: which address a node's stub was opened for.
use final_project_nimbusvaul.Base.{
  ◌≡◌, ◌≢◌, refl, ap, sym, ◌∙◌, [], ◌∷◌, none, some, Bytes, same, same_iff, same_refl, ◌⊎◌, inl,
  inr, Option-cases, Bool-cases,
}
use final_project_nimbusvaul.Base.Table.{Table, find, insert, find-insert}
use final_project_nimbusvaul.Replicas.{is_empty}
use final_project_nimbusvaul.Client.{Client, note_address, get_or_create_stub}

-- The node has no stub yet, or one that was opened for the address.
abbrev pub StubFits : Bytes → Bytes → Client → Type 0
StubFits node_id addr c =
    (find node_id c.storage_stubs ≡ none) ⊎ (find node_id c.storage_stubs ≡ some addr)

note_address-stubs :
    (c : Client) (i a : Bytes) → (note_address c i a).storage_stubs ≡ c.storage_stubs
unfolding note_address is_empty
note_address-stubs c i [] = refl
note_address-stubs c i (b ∷ a) = refl

note_address-finds :
    (c : Client) (i a : Bytes) → a ≢ [] → find i (note_address c i a).node_addrs ≡ some a
unfolding note_address is_empty
note_address-finds c i [] h = absurd (h refl)
note_address-finds c i (b ∷ a) h = rw (find-insert i i (b ∷ a) c.node_addrs, same_refl i) refl

insert-fits :
    (i id addr r : Bytes) (t : Table Bytes)
    → (i ≡ id → r ≡ addr)
    → (find id t ≡ none) ⊎ (find id t ≡ some addr)
    → (find id (insert i r t) ≡ none) ⊎ (find id (insert i r t) ≡ some addr)
insert-fits i id addr r t named fits = elim (Bool-cases (same i id)) [
  | inl e ↦ inr (find-insert i id r t ∙ rw e (ap some (named ((same_iff i id).0 e))))
  | inr ne ↦ rw (find-insert i id r t, ne) fits
]

-- A node's stub is opened once: a call keeps the stub of every node, and opens one for the
-- address it is given.
pub get_or_create_stub-fits :
    (c : Client) (i a node_id addr : Bytes)
    → (i ≡ node_id → a ≡ addr)
    → addr ≢ []
    → StubFits node_id addr c
    → StubFits node_id addr (get_or_create_stub c i a).1
unfolding get_or_create_stub
get_or_create_stub-fits c i a node_id addr named given fits =
    let kept = note_address-stubs c i a in
    elim (Option-cases (find i (note_address c i a).node_addrs)) [
      | inl nowhere ↦ rw (nowhere, get_or_create_stub, kept) fits
      | inr (resolved, at) ↦ elim (Option-cases (find i (note_address c i a).storage_stubs)) [
        | inr (opened, there) ↦ rw (at, get_or_create_stub, there, kept) fits
        | inl closed ↦
            rw (at, get_or_create_stub, closed, kept)
              (insert-fits i node_id addr resolved c.storage_stubs
                (λ e. some_eq (
                  sym at
                  ∙ note_address-finds c i a (λ n. given (sym (named e) ∙ n))
                  ∙ ap some (named e)))
                fits)
      ]
    ]
  where
    some_eq : {x y : Bytes} → some x ≡ some y → x ≡ y
    some_eq e = cc

pub get_or_create_stub-opens :
    (c : Client) (i addr : Bytes)
    → addr ≢ []
    → StubFits i addr c
    → (get_or_create_stub c i addr).0 ≡ some addr
unfolding get_or_create_stub
get_or_create_stub-opens c i addr given fits = elim fits [
  | inl closed ↦
      rw
        (note_address-finds c i addr given, get_or_create_stub, note_address-stubs c i addr, closed)
        refl
  | inr opened ↦
      rw
        (note_address-finds c i addr given, get_or_create_stub, note_address-stubs c i addr, opened)
        refl
]
