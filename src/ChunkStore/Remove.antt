-- ===== src/ChunkStore/Remove.antt =====
-- What removing a chunk takes away, and what it leaves.
use final_project_nimbusvaul.Base.{
  ℕ, ◌<◌, ◌≤◌, ◌≡◌, true, false, ◌∷◌, ◌++◌, none, Bytes, codes, arith, ◌∙◌, append_assoc,
}
use final_project_nimbusvaul.Base.Order.{key_leb, key_leb-append}
use final_project_nimbusvaul.Rocks.{RocksDb, RocksLaws, in_range}
use final_project_nimbusvaul.ChunkStore.{chunk_prefix, make_key, padded, last_version, remove_db}
use final_project_nimbusvaul.ChunkStore.Keys.{
  make_key-prefix, key_leb-make_key, padded-fixed, fixed_head,
}

-- Text that begins with a byte below '~'.
below_tilde : (c : ℕ) (s : Bytes) → c < b'~' → key_leb (codes "~") (c ∷ s) ≡ false
unfolding key_leb
below_tilde c s h = ground arith

above_zeros : (c : ℕ) (s : Bytes) → b'0' < c → key_leb (padded 0) (c ∷ s) ≡ true
unfolding key_leb padded
above_zeros c s h = ground arith

nested_key :
    (id s : Bytes) (c v : ℕ)
    → make_key (id ++ (codes "/" ++ c ∷ s)) v
      ≡ chunk_prefix id ++ (c ∷ (s ++ (codes "/" ++ padded v)))
unfolding make_key chunk_prefix
nested_key id s c v = simp (append_assoc)

-- Below the prefix, the range holds what begins with a byte from '0' to '}', from the first
-- version's digits on.
in_range_prefix :
    (id rest : Bytes)
    → key_leb (padded 0) rest ≡ true
    → key_leb (codes "~") rest ≡ false
    → in_range (make_key id 0) (chunk_prefix id ++ codes "~") (chunk_prefix id ++ rest) ≡ true
in_range_prefix id rest low high =
    let a : key_leb (make_key id 0) (chunk_prefix id ++ rest) ≡ true =
      rw (make_key-prefix id 0) (key_leb-append (chunk_prefix id) (padded 0) rest ∙ low) in
    let b : key_leb (chunk_prefix id ++ codes "~") (chunk_prefix id ++ rest) ≡ false =
      key_leb-append (chunk_prefix id) (codes "~") rest ∙ high in
    rw (a, b)

module _ {D : Type 0} ⦃r : RocksDb D⦄ (laws : RocksLaws r) where
  -- A removal whose status was ok leaves no version of the chunk.
  pub remove_gone :
      (d : D) (id : Bytes) (v : ℕ)
      → (remove_db d id).0 ≡ true
      → v ≤ last_version
      → r.get (remove_db d id).1 (make_key id v) ≡ none
  unfolding remove_db
  remove_gone d id v done fits =
      let (c, s, shape, digit) = fixed_head v in
      let high : key_leb (codes "~") (padded v) ≡ false =
        rw (padded-fixed v fits, shape) (below_tilde c s (omega arith)) in
      let low : key_leb (make_key id 0) (make_key id v) ≡ true =
        key_leb-make_key id 0 v (omega arith) fits in
      let a : key_leb (chunk_prefix id ++ codes "~") (make_key id v) ≡ false =
        rw (make_key-prefix id v)
          (key_leb-append (chunk_prefix id) (codes "~") (padded v) ∙ high) in
      laws.get-delete_range d (make_key id 0) (chunk_prefix id ++ codes "~") (make_key id v) done
      ∙ rw (low, a)

  -- The range reaches further: it takes every version of every chunk whose id is the removed id, a
  -- slash, and text that begins with a byte between '0' and '~'.
  pub remove_takes_nested :
      (d : D) (id s : Bytes) (c v : ℕ)
      → (remove_db d id).0 ≡ true
      → b'0' < c
      → c < b'~'
      → r.get (remove_db d id).1 (make_key (id ++ (codes "/" ++ c ∷ s)) v) ≡ none
  unfolding remove_db
  remove_takes_nested d id s c v done low high =
      let nested : make_key (id ++ (codes "/" ++ c ∷ s)) v
          ≡ chunk_prefix id ++ (c ∷ (s ++ (codes "/" ++ padded v))) =
        nested_key id s c v in
      rw nested (
        laws.get-delete_range d (make_key id 0) (chunk_prefix id ++ codes "~") _ done
        ∙ rw (
            in_range_prefix id (c ∷ (s ++ (codes "/" ++ padded v))) (above_zeros c _ low)
              (below_tilde c _ high)))
