-- ===== src/Examples/Repairs.antt =====
-- A storage node that fetches the chunk it lacks.
use final_project_nimbusvaul.Base.{
  ℕ, ◌≤◌, ◌≡◌, refl, sym, ◌∙◌, true, false, List, [], ◌∷◌, Option, some, Bytes, codes, same, arith,
}
use final_project_nimbusvaul.Base.Table.{find}
use final_project_nimbusvaul.Rocks.Memory.{Memory, memory}
use final_project_nimbusvaul.Rocks.Memory.Laws.{memory-laws}
use final_project_nimbusvaul.Placement.{member}
use final_project_nimbusvaul.StorageRpc.{messages}
use final_project_nimbusvaul.ChunkStore.{read, latest_version}
use final_project_nimbusvaul.ChunkStore.Latest.{OnlyVersions}
use final_project_nimbusvaul.Repair.{
  ReplicaRepair, accept, repair_chunk, run_once, peer_of, fetch_from_any,
}
use final_project_nimbusvaul.Repair.Peers.{accept-messages}
use final_project_nimbusvaul.Repair.Sync.{repair_chunk-catches_up}
use final_project_nimbusvaul.Repair.Rounds.{RepairSteps, run_once-RepairSteps}
use final_project_nimbusvaul.Examples.Clients.{waking, one_chunk, chunk_resp}

abbrev bare : Memory
bare = []

bare_version : latest_version (record { db = some bare }) (codes "c") ≡ 0
unfolding latest_version final_project_nimbusvaul.Rocks.Memory.seek
bare_version = refl

only_bare : OnlyVersions bare (codes "c") 3
unfolding find
only_bare rest there = absurd (there refl)

taken_x : accept 3 (messages 3 (codes "x"), true) ≡ some (codes "x", 3)
taken_x = accept-messages 3 3 (codes "x") (omega arith)

abbrev taken_pair : Option (Bytes × ℕ)
taken_pair = some (codes "x", 3)

version_3 : (content : Bytes) (v : ℕ) → taken_pair ≡ some (content, v) → v ≡ 3
version_3 content v e = cc

repair_chunk-catches_up_example :
    let s =
      (repair_chunk ⦃coordinator = one_chunk⦄ ⦃net = waking⦄
        (codes "m")
        (codes "g")
        (record { db = some bare })
        tt
        0
        (codes "c")).0 in
    let fetched =
      fetch_from_any ⦃net = waking⦄ (codes "m") (codes "g") 0 (codes "c") 3 (codes "n=h" ∷ []) in
    (content : Bytes) × (v : ℕ) × (n' : ℕ) × (peer : Bytes) × (3 ≤ v)
    × (fetched.0 ≡ some (content, v))
    × (accept 3 (waking.fetch_rpc n' peer (codes "c") 3).0 ≡ some (content, v))
    × (latest_version s (codes "c") ≡ v)
    × (read s (codes "c") 3 ≡ some (content, v))
unfolding peer_of same
repair_chunk-catches_up_example =
    repair_chunk-catches_up ⦃coordinator = one_chunk⦄ ⦃net = waking⦄ memory-laws (codes "m")
      (codes "g") bare tt 0 (codes "c") chunk_resp [] [] (codes "n=h") (codes "h") (λ d k v. refl)
      only_bare refl refl (omega (arith, bare_version)) refl refl (λ n e. absurd (cc (taken_x, e)))
      (λ n peer content v e. omega (arith, version_3 content v (sym taken_x ∙ e)))

abbrev lagging_node : ReplicaRepair Memory
lagging_node = record {
  node_id = codes "m";
  address = codes "g";
  stopped = false;
  node = record {
    store = record { db = some bare };
    reporter = record {
      access_counts = [];
      assigned_chunk_ids = codes "c" ∷ [];
      has_assignment_snapshot = true;
    };
  };
}

abbrev in_order : List Bytes → List Bytes
in_order ids = ids

run_once-RepairSteps_example :
    RepairSteps one_chunk waking
      (codes "g")
      (codes "c" ∷ [])
      (record { db = some bare })
      (run_once ⦃coordinator = one_chunk⦄ ⦃net = waking⦄ in_order lagging_node tt 0).0.node.store
unfolding member same
run_once-RepairSteps_example =
    run_once-RepairSteps ⦃coordinator = one_chunk⦄ ⦃net = waking⦄ in_order lagging_node tt 0
      (refl, tt)
