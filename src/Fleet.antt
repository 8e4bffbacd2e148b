-- ===== src/Fleet.antt =====
-- The storage nodes of src/storage/storage_rpc.cpp in the place of the network: each call reaches
-- the node at its address, if there is one.
pub mod Nodes
pub mod Reads
use final_project_nimbusvaul.Base.{ℕ, Bool, true, false, List, [], Option, none, some, Bytes}
use final_project_nimbusvaul.Base.Table.{Table, find, insert}
use final_project_nimbusvaul.Rocks.{RocksDb}
use final_project_nimbusvaul.Stream.{Piece}
use final_project_nimbusvaul.StorageRpc.{
  StorageNode, write_chunk, read_chunk, fetch_chunk, delete_chunk_data,
}
use final_project_nimbusvaul.Replicas.{StorageNet}

unfoldable pub pieces_of : Option (List Piece) → List Piece × Bool
pieces_of none = ([], false)
pieces_of (some ps) = (ps, true)

module _ {D : Type 0} ⦃r : RocksDb D⦄ where
  unfoldable pub write_at :
      Table (StorageNode D) → Bytes → Bytes → ℕ → Bytes → Bool × Table (StorageNode D)
  write_at t addr id version content = elim (find addr t) [
    | none ↦ (false, t)
    | some node ↦
        let written = write_chunk node id version content in (written.0, insert addr written.1 t)
  ]

  unfoldable pub read_at :
      Table (StorageNode D) → Bytes → Bytes → ℕ → Option (Bytes × ℕ) × Table (StorageNode D)
  read_at t addr id min_version = elim (find addr t) [
    | none ↦ (none, t)
    | some node ↦ let answer = read_chunk node id min_version in (answer.0, insert addr answer.1 t)
  ]

  unfoldable pub fetch_at :
      Table (StorageNode D) → Bytes → Bytes → ℕ → (List Piece × Bool) × Table (StorageNode D)
  unfolding pieces_of
  fetch_at t addr id min_version = elim (find addr t) [
    | none ↦ (([], false), t)
    | some node ↦
        let answer = fetch_chunk node id min_version in (pieces_of answer.0, insert addr answer.1 t)
  ]

  unfoldable pub delete_at : Table (StorageNode D) → Bytes → Bytes → Table (StorageNode D)
  delete_at t addr id = elim (find addr t) [
    | none ↦ t
    | some node ↦ insert addr (delete_chunk_data node id).1 t
  ]

  instance abbrev pub fleet : StorageNet (Table (StorageNode D))
  fleet = record {
    write_rpc = write_at;
    fetch_rpc = fetch_at;
    read_rpc = read_at;
    delete_rpc = delete_at;
  }
