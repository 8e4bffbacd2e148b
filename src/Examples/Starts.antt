-- ===== src/Examples/Starts.antt =====
-- Command lines, and a server that starts.
use final_project_nimbusvaul.Base.{
  ℕ, ◌<◌, ◌≡◌, refl, true, List, [], ◌∷◌, none, some, Bytes, codes, All, length, take, pos, u32,
  arith,
}
use final_project_nimbusvaul.Base.Table.{find, insert}
use final_project_nimbusvaul.Text.Decimal.{to_string, int_to_string, stoull, stoi}
use final_project_nimbusvaul.Text.Split.{comma_list, split_nonempty}
use final_project_nimbusvaul.Rocks.Memory.{Memory, memory}
use final_project_nimbusvaul.Rocks.Memory.Laws.{memory-laws}
use final_project_nimbusvaul.Wal.{Wal, WalEntry, put_chunk, append, commit}
use final_project_nimbusvaul.Wal.Log.{IsLog, append-IsLog, commit-IsLog}
use final_project_nimbusvaul.Coordinator.{Coordinator, fresh, get_alive_nodes, apply_put_chunk}
use final_project_nimbusvaul.Apply.{apply_entries, apply_wal_entry, put_payload}
use final_project_nimbusvaul.Recovery.Undo.{Behind, put_of}
use final_project_nimbusvaul.Replicas.{StorageNet, delete_chunk_from_replica, resolve_address}
use final_project_nimbusvaul.Cli.{default_options, parse_flags, parse_nodes}
use final_project_nimbusvaul.Cli.Flags.{
  IsNode, node_list, last_addr, parse_flags-joined, parse-node_list,
}
use final_project_nimbusvaul.Programs.{NodeConfig, default_node}
use final_project_nimbusvaul.Programs.Boot.{Role, boot}
use final_project_nimbusvaul.Programs.Restart.{undo_put, undo_all, IsStarted, boot-committed}
use final_project_nimbusvaul.Examples.{
  whole, empty_log, empty_log-IsLog, free_of-Lacks, c-IsName, entries, entries-AreReplicas,
}

parse_flags-joined_example :
    (parse_flags default_options (codes "--meta" ∷ codes "h:1" ∷ codes "get" ∷ [])
      ≡ parse_flags default_options (codes "--meta=h:1" ∷ codes "get" ∷ []))
    × (parse_flags default_options (codes "--nodes" ∷ codes "h:1" ∷ codes "get" ∷ [])
        ≡ parse_flags default_options (codes "--nodes=h:1" ∷ codes "get" ∷ []))
parse_flags-joined_example = parse_flags-joined default_options (codes "h:1") (codes "get" ∷ [])

abbrev two_nodes : List (Bytes × Bytes)
two_nodes = (codes "n", codes "h=1") ∷ (codes "n", codes "g") ∷ []

two_nodes-IsNode : All IsNode two_nodes
two_nodes-IsNode = (
  (
    free_of-Lacks b'=' (codes "n") refl,
    free_of-Lacks b',' (codes "n") refl,
    free_of-Lacks b',' (codes "h=1") refl,
  ),
  (
    (
      free_of-Lacks b'=' (codes "n") refl,
      free_of-Lacks b',' (codes "n") refl,
      free_of-Lacks b',' (codes "g") refl,
    ),
    tt,
  ),
)

parse-node_list_example :
    find (codes "n") (parse_nodes (node_list two_nodes)) ≡ last_addr (codes "n") two_nodes
parse-node_list_example = parse-node_list two_nodes (codes "n") two_nodes-IsNode

abbrev leading : NodeConfig
leading = record default_node { role = codes "leader"; peers = codes "f" ∷ [] }

-- Storage nodes that note the deletions they are asked for.
abbrev noting : StorageNet (List (Bytes × Bytes))
noting = record {
  write_rpc = λ n addr id version content. (true, n);
  fetch_rpc = λ n addr id version. (([], true), n);
  read_rpc = λ n addr id version. (none, n);
  delete_rpc = λ n addr id. (addr, id) ∷ n;
}

abbrev first_put : Bytes
first_put = put_payload (codes "c") 2 (pos 1) 1 entries

abbrev second_put : Bytes
second_put = put_payload (codes "c") 3 (pos 1) 2 entries

-- A log with a committed put of a chunk and a second put of it that is not committed.
abbrev put_log : Wal Memory
put_log = (append (commit (append empty_log put_chunk 1 first_put).1 1) put_chunk 1 second_put).1

abbrev put_entries : List WalEntry
put_entries =
    (record { log_index = 1; term = 1; type = put_chunk; payload = first_put })
    ∷ (record { log_index = 2; term = 1; type = put_chunk; payload = second_put })
    ∷ []

first_short : length first_put < u32
unfolding put_payload to_string int_to_string comma_list
first_short = omega arith

second_short : length second_put < u32
unfolding put_payload to_string int_to_string comma_list
second_short = omega arith

put_log-IsLog : IsLog put_log put_entries
unfolding append commit
put_log-IsLog =
    let one =
      (append-IsLog memory-laws empty_log [] put_chunk 1 first_put 1 empty_log-IsLog (omega arith)
        (omega arith) first_short tt refl).1 in
    let w = (append empty_log put_chunk 1 first_put).1 in
    let e : WalEntry = record { log_index = 1; term = 1; type = put_chunk; payload = first_put } in
    let (done, _) = commit-IsLog memory-laws w (e ∷ []) 1 one (omega arith) in
    (append-IsLog memory-laws (commit w 1) (e ∷ []) put_chunk 1 second_put 2 done (omega arith)
      (omega arith) second_short tt refl).1

abbrev once_put : Coordinator ℕ
once_put = apply_put_chunk fresh (codes "c") 2 (pos 1) entries 1

first_applied : apply_entries {F = ℕ} fresh 5 (take put_log.committed put_entries) ≡ some once_put
unfolding append commit apply_entries apply_wal_entry apply_put_chunk split_nonempty insert
    put_payload to_string int_to_string comma_list stoull stoi
first_applied = refl

abbrev behind : List Behind
behind = put_of (codes "c") 3 1 2 entries ∷ []

-- The leader starts with the first put, and asks the node to delete the chunk.
boot-committed_example :
    (role : Role ℕ Memory) × (n' : List (Bytes × Bytes)) × (boot ⦃net = noting⦄ leading put_log [] 5
      ≡ some (once_put, role, n'))
    × IsStarted ⦃net = noting⦄ leading put_log 5 (get_alive_nodes once_put) behind [] role n'
unfolding append commit
boot-committed_example =
    boot-committed ⦃net = noting⦄ leading put_log put_entries [] 5 once_put behind put_log-IsLog
      first_applied ((refl, refl, c-IsName, entries-AreReplicas), tt)

notes_one :
    undo_all ⦃net = noting⦄ [] (get_alive_nodes once_put) behind ≡ (codes "h", codes "c") ∷ []
unfolding undo_all undo_put delete_chunk_from_replica resolve_address
notes_one = refl
