-- ===== src/Examples/Fleets.antt =====
-- A client that reads from a storage node what was written to it.
use final_project_nimbusvaul.Base.{
  ℕ, ◌≡◌, ◌≢◌, refl, sym, true, false, [], ◌∷◌, none, some, Bytes, codes, same, same_iff, arith,
  Bool-cases, inl, inr,
}
use final_project_nimbusvaul.Base.Table.{Table, find}
use final_project_nimbusvaul.Rocks.Memory.{Memory, memory}
use final_project_nimbusvaul.Rocks.Memory.Laws.{memory-laws}
use final_project_nimbusvaul.ChunkStore.{write}
use final_project_nimbusvaul.ChunkStore.Latest.{OnlyVersions}
use final_project_nimbusvaul.StorageRpc.{StorageNode, write_chunk}
use final_project_nimbusvaul.ChunkRpc.{has_replica_node}
use final_project_nimbusvaul.Client.{parse_replica_entry, build_replica_try_list, target_of, get}
use final_project_nimbusvaul.Client.Get.{GivesAddress}
use final_project_nimbusvaul.Fleet.{write_at, read_at, fleet}
use final_project_nimbusvaul.Fleet.Reads.{get_after_write}
use final_project_nimbusvaul.Examples.Clients.{one_chunk, chunk_resp, no_stubs}

abbrev blank : Memory
blank = []

abbrev blank_node : StorageNode Memory
blank_node = record {
  store = record { db = some blank };
  reporter = record {
    access_counts = [];
    assigned_chunk_ids = [];
    has_assignment_snapshot = false;
  };
}

abbrev one_node : Table (StorageNode Memory)
one_node = (codes "h", blank_node) ∷ []

only_blank : OnlyVersions blank (codes "c") 3
unfolding find
only_blank rest there = absurd (there refl)

names_h : GivesAddress (codes "n") (codes "h") (codes "n=h")
unfolding parse_replica_entry
names_h named = refl

abbrev stay : Table (StorageNode Memory) → Table (StorageNode Memory)
stay t = t

-- The fleet has no other node than the one at `h`.
only_h :
    (other : Bytes) (found : Bytes × ℕ)
    → other ≢ codes "h"
    → (read_at one_node other (codes "c") 3).0 ≡ some found
    → found ≡ (codes "x", 3)
unfolding read_at find
only_h other found ne e = elim (Bool-cases (same (codes "h") other)) [
  | inl is ↦ absurd (ne (sym ((same_iff (codes "h") other).0 is)))
  | inr away ↦
      let nothing : (read_at one_node other (codes "c") 3).0 ≡ none = rw (away, read_at) refl in
      absurd (cc)
]

get_after_write_example :
    let after = (write_at one_node (codes "h") (codes "c") 3 (codes "x")).1 in
    let result = (get ⦃coordinator = one_chunk⦄ stay no_stubs tt after (codes "c") 0).0 in
    (result.ok ≡ true) × (result.content ≡ codes "x") × (result.version ≡ 3)
unfolding target_of find same write_at write_chunk write build_replica_try_list
get_after_write_example =
    get_after_write ⦃coordinator = one_chunk⦄ memory-laws stay no_stubs tt one_node blank_node blank
      (codes "n") (codes "h") (codes "c") (codes "x") 3 0 chunk_resp refl refl refl (omega arith)
      only_blank refl refl (omega arith) (unfold has_replica_node build_replica_try_list in refl)
      (names_h, tt) (λ e. absurd (cc)) (inl refl) only_h (λ t h. h)
