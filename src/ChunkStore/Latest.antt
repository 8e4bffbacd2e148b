-- ===== src/ChunkStore/Latest.antt =====
-- What reading a chunk returns: its highest version.
use final_project_nimbusvaul.Base.{
  ℕ, ◌≤◌, ◌≡◌, ◌≢◌, true, ◌++◌, none, some, Bytes, same, same_iff, arith, Bool-cases, Option-cases,
  inl, inr, sym, ◌∙◌, ap, subst, false≢true, le→ltb-false,
}
use final_project_nimbusvaul.Base.Order.{key_leb, key_leb_antisym}
use final_project_nimbusvaul.Rocks.{RocksDb, RocksLaws}
use final_project_nimbusvaul.ChunkStore.{
  chunk_prefix, make_key, padded, strip, last_version, write_db, write, latest_pair, read,
  latest_version,
}
use final_project_nimbusvaul.ChunkStore.Keys.{
  make_key-prefix, key_leb-make_key, strip-append, between, stoull-padded,
}

module _ {D : Type 0} ⦃r : RocksDb D⦄ where
  -- The keys below the prefix of the chunk are those of its versions, none above `top`.
  abbrev pub OnlyVersions : D → Bytes → ℕ → Type 0
  OnlyVersions d id top =
      (rest : Bytes)
      → r.get d (chunk_prefix id ++ rest) ≢ none
      → (v : ℕ) × (v ≤ top) × (rest ≡ padded v)

  module _ (laws : RocksLaws r) where
    -- The key that `SeekForPrev` finds.
    seek_top :
        (d : D) (id content key value : Bytes) (top : ℕ)
        → r.get d (make_key id top) ≡ some content
        → top ≤ last_version
        → OnlyVersions d id top
        → r.seek_for_prev d (make_key id last_version) ≡ some (key, value)
        → (key ≡ make_key id top) × (value ≡ content)
    seek_top d id content key value top at fits only found =
        let (gk, le, most) = laws.seek_found d (make_key id last_version) key value found in
        let above : key_leb (make_key id top) key ≡ true =
          most (make_key id top) (λ n. absurd (cc))
            (key_leb-make_key id top last_version fits (omega arith)) in
        let (rest, split) =
          between (chunk_prefix id) (padded top) (padded last_version) key
            (subst (λ k. key_leb k key ≡ true) (make_key-prefix id top) above)
            (subst (λ k. key_leb key k ≡ true) (make_key-prefix id last_version) le) in
        let (v, low, shape) = only rest (λ n. absurd (cc (gk, n, ap (r.get d) split))) in
        let named : key ≡ make_key id v =
          split ∙ ap (λ s. chunk_prefix id ++ s) shape ∙ sym (make_key-prefix id v) in
        let below : key_leb key (make_key id top) ≡ true =
          subst (λ k. key_leb k (make_key id top) ≡ true) (sym named)
            (key_leb-make_key id v top low fits) in
        let same_key = key_leb_antisym key (make_key id top) below above in
        (same_key, some-eq (sym gk ∙ ap (r.get d) same_key ∙ at))
      where
        some-eq : {a b : Bytes} → some a ≡ some b → a ≡ b
        some-eq e = cc

    -- The highest version that the database holds of a chunk is the one that is found, with its
    -- data.
    pub latest_pair-top :
        (d : D) (id content : Bytes) (top : ℕ)
        → r.get d (make_key id top) ≡ some content
        → top ≤ last_version
        → OnlyVersions d id top
        → latest_pair d id ≡ some (top, content)
    unfolding latest_pair
    latest_pair-top d id content top at fits only =
        elim (Option-cases (r.seek_for_prev d (make_key id last_version))) [
          | inl nothing ↦ absurd (
              false≢true (
                sym (
                  laws.seek_none d (make_key id last_version) nothing (make_key id top)
                    (λ n. absurd (cc)))
                ∙ key_leb-make_key id top last_version fits (omega arith)))
          | inr ((key, value), found) ↦
              let (named, whole) = seek_top d id content key value top at fits only found in
              let stripped : strip (chunk_prefix id) key ≡ some (padded top) =
                ap (strip (chunk_prefix id)) (named ∙ make_key-prefix id top)
                ∙ strip-append (chunk_prefix id) (padded top) in
              rw (found, latest_pair, stripped, stoull-padded top fits, whole)
        ]

    write-OnlyVersions :
        (d : D) (id content : Bytes) (v : ℕ)
        → OnlyVersions d id v
        → OnlyVersions (write_db d id v content).1 id v
    unfolding write_db
    write-OnlyVersions d id content v only rest there =
        elim (Bool-cases (same (make_key id v) (chunk_prefix id ++ rest))) [
          | inl e ↦
              let key = (same_iff (make_key id v) (chunk_prefix id ++ rest)).0 e in
              (
                v,
                omega arith,
                some-bytes (
                    sym (strip-append (chunk_prefix id) rest)
                    ∙ ap (strip (chunk_prefix id)) (sym key ∙ make_key-prefix id v)
                    ∙ strip-append (chunk_prefix id) (padded v)),
              )
          | inr ne ↦ only rest (λ n. there (
              laws.get-put_ne d (make_key id v) (chunk_prefix id ++ rest) content (λ q.
                absurd
                  (false≢true (sym ne ∙ (same_iff (make_key id v) (chunk_prefix id ++ rest)).1 q)))
              ∙ n))
        ]
      where
        some-bytes : {a b : Bytes} → some a ≡ some b → a ≡ b
        some-bytes e = cc

    -- After a write whose status was ok, of a version of at most ten digits and not below any that
    -- the database holds of the chunk: the node's latest version is the one written, and a read with
    -- a minimum version up to it returns the data and the version.
    pub read_after_write :
        (d : D) (id content : Bytes) (v min_version : ℕ)
        → (write_db d id v content).0 ≡ true
        → v ≤ last_version
        → OnlyVersions d id v
        → min_version ≤ v
        → let s = (write (record { db = some d }) id v content).1 in
          (read s id min_version ≡ some (content, v)) × (latest_version s id ≡ v)
    unfolding write read latest_version
    read_after_write d id content v min_version done fits only low =
        let d' = (write_db d id v content).1 in
        let top =
          latest_pair-top d' id content v
            (unfold write_db in
              laws.get-put_self d (make_key id v) content (unfold write_db in done))
            fits (write-OnlyVersions d id content v only) in
        (rw (top, read, le→ltb-false v min_version low), rw (top, latest_version))
