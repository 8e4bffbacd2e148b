-- ===== src/Examples/Storage.antt =====
-- A storage node that is written to, read and cleared.
use final_project_nimbusvaul.Base.{◌≡◌, refl, false, List, [], ◌∷◌, ◌++◌, none, some, codes, arith}
use final_project_nimbusvaul.Base.Table.{find}
use final_project_nimbusvaul.Rocks.Memory.{Memory, memory}
use final_project_nimbusvaul.Rocks.Memory.Laws.{memory-laws}
use final_project_nimbusvaul.ChunkStore.{write, remove_db, make_key}
use final_project_nimbusvaul.ChunkStore.Latest.{OnlyVersions}
use final_project_nimbusvaul.ChunkStore.Remove.{remove_gone, remove_takes_nested}
use final_project_nimbusvaul.Stream.{Piece, assemble}
use final_project_nimbusvaul.StorageRpc.{StorageNode, write_chunk, read_chunk, fetch_chunk}
use final_project_nimbusvaul.StorageRpc.Fetch.{fetch_after_write}

abbrev nothing : Memory
nothing = []

only_none : OnlyVersions nothing (codes "c") 7
unfolding find
only_none rest there = absurd (there refl)

abbrev idle : StorageNode Memory
idle = record {
  store = record { db = some nothing };
  reporter = record {
    access_counts = [];
    assigned_chunk_ids = [];
    has_assignment_snapshot = false;
  };
}

fetch_after_write_example :
    let after = (write_chunk idle (codes "c") 7 (codes "xyz")).1 in
    ((read_chunk after (codes "c") 5).0 ≡ some (codes "xyz", 7))
    × ((ps : List Piece) × ((fetch_chunk after (codes "c") 5).0 ≡ some ps)
        × (assemble ps ≡ codes "xyz"))
unfolding write_chunk write
fetch_after_write_example =
    fetch_after_write memory-laws idle nothing (codes "c") (codes "xyz") 7 5 refl refl (omega arith)
      only_none (omega arith)

-- Version 7 of the chunks "c" and "c/a".
abbrev stored : Memory
stored =
    (make_key (codes "c") 7, codes "x")
    ∷ (make_key (codes "c" ++ (codes "/" ++ b'a' ∷ [])) 7, codes "y")
    ∷ []

remove_gone_example : find (make_key (codes "c") 7) (remove_db stored (codes "c")).1 ≡ none
unfolding remove_db
remove_gone_example = remove_gone memory-laws stored (codes "c") 7 refl (omega arith)

remove_takes_nested_example :
    find (make_key (codes "c" ++ (codes "/" ++ b'a' ∷ [])) 7) (remove_db stored (codes "c")).1
    ≡ none
unfolding remove_db
remove_takes_nested_example =
    remove_takes_nested memory-laws stored (codes "c") [] b'a' 7 refl (omega arith) (omega arith)
