-- ===== src/StorageRpc/Fetch.antt =====
-- What a client reads from a storage node after a write.
use final_project_nimbusvaul.Base.{
  ℕ, ◌≤◌, ◌≡◌, refl, sym, ap, ◌∙◌, true, List, [], ◌∷◌, some, Bytes, le→ltb-false,
}
use final_project_nimbusvaul.Rocks.{RocksDb, RocksLaws}
use final_project_nimbusvaul.ChunkStore.{write, write_db, read, last_version}
use final_project_nimbusvaul.ChunkStore.Latest.{OnlyVersions, read_after_write}
use final_project_nimbusvaul.Stream.{Piece, assemble}
use final_project_nimbusvaul.Stream.Laws.{assemble-stream}
use final_project_nimbusvaul.StorageRpc.{
  StorageNode, write_chunk, read_chunk, fetch_chunk, messages,
}

assemble-messages : (version : ℕ) (content : Bytes) → assemble (messages version content) ≡ content
unfolding messages
assemble-messages version [] = unfold assemble in refl
assemble-messages version (b ∷ content) = assemble-stream version (b ∷ content)

module _ {D : Type 0} ⦃r : RocksDb D⦄ (laws : RocksLaws r) where
  -- After a WriteChunk that answers ok, of a version of at most ten digits, on a node where all keys
  -- below the chunk's prefix are those of its versions and none exceeds the one written (so the node
  -- has no chunk whose id continues this one by a slash): for every minimum up to it, ReadChunk
  -- gives the data and the version, and the messages of FetchChunk put together are the data.
  pub fetch_after_write :
      (n : StorageNode D) (d : D) (id content : Bytes) (v min_version : ℕ)
      → n.store ≡ record { db = some d }
      → (write_chunk n id v content).0 ≡ true
      → v ≤ last_version
      → OnlyVersions d id v
      → min_version ≤ v
      → let after = (write_chunk n id v content).1 in
        ((read_chunk after id min_version).0 ≡ some (content, v))
        × ((ps : List Piece) × ((fetch_chunk after id min_version).0 ≡ some ps)
            × (assemble ps ≡ content))
  unfolding fetch_chunk read_chunk write_chunk write_db write
  fetch_after_write n d id content v min_version opened done fits only low =
      let found : read (write n.store id v content).1 id min_version ≡ some (content, v) =
        rw opened
          (read_after_write laws d id content v min_version (written opened done) fits only
            low).0 in
      let fresh = le→ltb-false v min_version low in
      (
        rw (found, read_chunk, fresh),
        (messages v content, rw (found, fetch_chunk, fresh), assemble-messages v content),
      )
    where
      written :
          n.store ≡ record { db = some d }
          → (write n.store id v content).0 ≡ true
          → (write_db d id v content).0 ≡ true
      written e ok = sym (ap (λ s. (write s id v content).0) e) ∙ ok
