-- ===== src/Replicas.antt =====
-- Replica entries, `node_id` or `node_id=address`, and the calls of a storage node: the helpers
-- that src/meta/reconfig_driver.cpp, meta_rpc.cpp and recovery.cpp each write out for themselves.
use final_project_nimbusvaul.Base.{
  ℕ, Bool, true, false, List, [], ◌∷◌, ◌++◌, Option, none, some, Bytes, same, if◌then◌else◌,
}
use final_project_nimbusvaul.Text.Split.{split_eq}
use final_project_nimbusvaul.Stream.{Piece}
use final_project_nimbusvaul.Coordinator.{NodeEntry}

-- The gRPC client stubs of the storage nodes, found by address: whether the call succeeded, or what
-- it answered, and the network after it.
pub record StorageNet (N : Type 0) : Type 0 where
  pub write_rpc : N → Bytes → Bytes → ℕ → Bytes → Bool × N
  -- The messages read, and whether `Finish` was ok.
  pub fetch_rpc : N → Bytes → Bytes → ℕ → (List Piece × Bool) × N
  pub read_rpc : N → Bytes → Bytes → ℕ → Option (Bytes × ℕ) × N
  pub delete_rpc : N → Bytes → Bytes → N

unfoldable pub is_empty : Bytes → Bool
is_empty [] = true
is_empty (c ∷ s) = false

module _ {F : Type 0} where
  -- The address of the first node with the id, if there is one.
  unfoldable pub address_of : Bytes → List (NodeEntry F) → Option Bytes
  address_of id [] = none
  address_of id (n ∷ ns) = if same n.node_id id then some n.address else address_of id ns

  unfoldable pub resolve_address : Bytes → List (NodeEntry F) → Bytes
  unfolding address_of split_eq
  resolve_address entry alive = elim (split_eq entry) [
    | some (id, address) ↦ address
    | none ↦ elim (address_of entry alive) [ none ↦ [] | some address ↦ address ]
  ]

  unfoldable pub encode_entry : Bytes → List (NodeEntry F) → Bytes
  unfolding address_of
  encode_entry node_id alive = elim (address_of node_id alive) [
    | none ↦ node_id
    | some address ↦ node_id ++ b'=' ∷ address
  ]

  -- As `encode_entry`, but an entry that has an address already is kept.
  unfoldable pub encode_replica_target : Bytes → List (NodeEntry F) → Bytes
  unfolding encode_entry split_eq
  encode_replica_target entry alive = elim (split_eq entry) [
    | some (id, address) ↦ entry
    | none ↦ encode_entry entry alive
  ]

unfoldable pub extract_node_id : Bytes → Bytes
unfolding split_eq
extract_node_id entry = elim (split_eq entry) [ none ↦ entry | some (id, address) ↦ id ]

module _ {N : Type 0} ⦃net : StorageNet N⦄ where
  unfoldable pub write_chunk_to_replica : N → Bytes → Bytes → ℕ → Bytes → Bool × N
  write_chunk_to_replica n [] chunk_id version content = (false, n)
  write_chunk_to_replica n (c ∷ addr) chunk_id version content =
      net.write_rpc n (c ∷ addr) chunk_id version content

  unfoldable pub delete_chunk_from_replica : N → Bytes → Bytes → N
  delete_chunk_from_replica n [] chunk_id = n
  delete_chunk_from_replica n (c ∷ addr) chunk_id = net.delete_rpc n (c ∷ addr) chunk_id

  unfoldable pub delete_from_all : N → List Bytes → Bytes → N
  unfolding delete_chunk_from_replica
  delete_from_all n [] chunk_id = n
  delete_from_all n (addr ∷ addrs) chunk_id =
      delete_from_all (delete_chunk_from_replica n addr chunk_id) addrs chunk_id
