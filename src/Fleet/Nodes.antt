-- ===== src/Fleet/Nodes.antt =====
-- Reads leave the answers of the storage nodes of a fleet alone.
use final_project_nimbusvaul.Base.{
  ℕ, ◌≡◌, refl, sym, ap, ◌∙◌, Option, none, some, Bytes, same, same_iff, ltb, if◌then◌else◌,
  Option-cases, Bool-cases, inl, inr,
}
use final_project_nimbusvaul.Base.Table.{Table, find, insert, find-insert}
use final_project_nimbusvaul.Rocks.{RocksDb}
use final_project_nimbusvaul.ChunkStore.{read}
use final_project_nimbusvaul.StorageRpc.{StorageNode, read_chunk}
use final_project_nimbusvaul.Fleet.{read_at}

-- What ReadChunk makes of what the store reads.
fresh_enough : ℕ → Option (Bytes × ℕ) → Option (Bytes × ℕ)
fresh_enough min_version none = none
fresh_enough min_version (some (content, version)) =
    if ltb version min_version then none else some (content, version)

module _ {D : Type 0} ⦃r : RocksDb D⦄ where
  read_chunk-answer :
      (n : StorageNode D) (id : Bytes) (min_version : ℕ)
      → (read_chunk n id min_version).0 ≡ fresh_enough min_version (read n.store id min_version)
  unfolding read_chunk fresh_enough
  read_chunk-answer n id min_version = elim (Option-cases (read n.store id min_version)) [
    | inl nothing ↦ rw (nothing, read_chunk) refl
    | inr ((content, version), found) ↦ elim (Bool-cases (ltb version min_version)) [
      | inl old ↦ rw (found, read_chunk, old) refl
      | inr new ↦ rw (found, read_chunk, new) refl
    ]
  ]

  read_chunk-store :
      (n : StorageNode D) (id : Bytes) (min_version : ℕ)
      → (read_chunk n id min_version).1.store ≡ n.store
  unfolding read_chunk
  read_chunk-store n id min_version = elim (Option-cases (read n.store id min_version)) [
    | inl nothing ↦ rw (nothing, read_chunk) refl
    | inr ((content, version), found) ↦ elim (Bool-cases (ltb version min_version)) [
      | inl old ↦ rw (found, read_chunk, old) refl
      | inr new ↦ rw (found, read_chunk, new) refl
    ]
  ]

  read_chunk_again :
      (n : StorageNode D) (id : Bytes) (min_version : ℕ)
      → (read_chunk (read_chunk n id min_version).1 id min_version).0
        ≡ (read_chunk n id min_version).0
  read_chunk_again n id min_version =
      read_chunk-answer (read_chunk n id min_version).1 id min_version
      ∙ ap (λ s. fresh_enough min_version (read s id min_version))
          (read_chunk-store n id min_version)
      ∙ sym (read_chunk-answer n id min_version)

  unfoldable pub answer_of : Bytes → ℕ → Option (StorageNode D) → Option (Bytes × ℕ)
  answer_of id min_version none = none
  answer_of id min_version (some node) = (read_chunk node id min_version).0

  pub read_at-answer :
      (t : Table (StorageNode D)) (addr id : Bytes) (min_version : ℕ)
      → (read_at t addr id min_version).0 ≡ answer_of id min_version (find addr t)
  unfolding read_at answer_of
  read_at-answer t addr id min_version = elim (Option-cases (find addr t)) [
    | inl nobody ↦ rw (nobody, read_at) refl
    | inr (node, there) ↦ rw (there, read_at) refl
  ]

  -- A read of a chunk changes no answer of any node to the same read.
  pub read_at_again :
      (t : Table (StorageNode D)) (other addr id : Bytes) (min_version : ℕ)
      → (read_at (read_at t other id min_version).1 addr id min_version).0
        ≡ (read_at t addr id min_version).0
  unfolding read_at answer_of
  read_at_again t other addr id min_version =
      let answers = λ (o : Option (StorageNode D)). answer_of id min_version o in
      elim (Option-cases (find other t)) [
        | inl nobody ↦
            let left : (read_at t other id min_version).1 ≡ t = rw (nobody, read_at) refl in
            ap (λ k. (read_at k addr id min_version).0) left
        | inr (node, at) ↦
            let after = (read_chunk node id min_version).1 in
            let left : (read_at t other id min_version).1 ≡ insert other after t =
              rw (at, read_at) refl in
            ap (λ k. (read_at k addr id min_version).0) left
            ∙ (read_at-answer (insert other after t) addr id min_version
                ∙ ap answers (find-insert other addr after t)
                ∙ elim (Bool-cases (same other addr)) [
                  | inr ne ↦ rw ne (sym (read_at-answer t addr id min_version))
                  | inl e ↦
                      let there : find addr t ≡ some node =
                        ap (λ a. find a t) (sym ((same_iff other addr).0 e)) ∙ at in
                      rw e (
                        read_chunk_again node id min_version
                        ∙ sym (ap answers there)
                        ∙ sym (read_at-answer t addr id min_version))
                ])
      ]

  -- The node at the address answers the read, and no node gives another answer.
  pub record Serves (addr id : Bytes) (min_version : ℕ) (answer : Bytes × ℕ)
      (t : Table (StorageNode D)) : Type 0 where
    pub answers : (read_at t addr id min_version).0 ≡ some answer
    pub agree :
        (other : Bytes) (found : Bytes × ℕ)
        → (read_at t other id min_version).0 ≡ some found
        → found ≡ answer

  pub read_at-Serves :
      (t : Table (StorageNode D)) (addr other id : Bytes) (min_version : ℕ) (answer : Bytes × ℕ)
      → Serves addr id min_version answer t
      → Serves addr id min_version answer (read_at t other id min_version).1
  read_at-Serves t addr other id min_version answer h = record {
    answers = read_at_again t other addr id min_version ∙ h.answers;
    agree = λ a found e. h.agree a found (sym (read_at_again t other a id min_version) ∙ e);
  }
