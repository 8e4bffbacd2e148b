-- ===== src/Examples/Metadata.antt =====
-- Puts, moves and snapshots on a small server.
use final_project_nimbusvaul.Base.{◌≡◌, refl, List, [], ◌∷◌, some, Bytes, codes, pos, arith, same}
use final_project_nimbusvaul.Rocks.Memory.{memory}
use final_project_nimbusvaul.Rocks.Memory.Laws.{memory-laws}
use final_project_nimbusvaul.Wal.{
  delete_chunk, append, commit, read_entry, wal_key, cmt_key, encode_entry, decode_entry, byte_type,
}
use final_project_nimbusvaul.Base.Table.{find, insert, values}
use final_project_nimbusvaul.Base.Endian.{be_bytes, from_be}
use final_project_nimbusvaul.Text.Decimal.{to_string, int_to_string, stoull, stoi}
use final_project_nimbusvaul.Text.Split.{comma_list, split_nonempty}
use final_project_nimbusvaul.Placement.{select_nodes}
use final_project_nimbusvaul.Coordinator.{apply_put_chunk, get_alive_nodes, get_chunk, next_version}
use final_project_nimbusvaul.Apply.{put_payload, apply_wal_entry}
use final_project_nimbusvaul.Replication.{ok, write}
use final_project_nimbusvaul.Server.{replicate}
use final_project_nimbusvaul.Server.Commits.{IsReady, replicate-ok}
use final_project_nimbusvaul.Reconfig.{Waits}
use final_project_nimbusvaul.MetaRpc.{PutReq, answer, put_chunk_rpc}
use final_project_nimbusvaul.MetaRpc.Put.{entry_of, put_chunk_rpc-stores}
use final_project_nimbusvaul.Examples.{
  refusing, whole, willing, coordinator, leader, cluster, leader-IsReady, one_poll, placement,
  keep_order, entries, entries-AreReplicas, c-IsName,
}

abbrev request : PutReq
request = record { chunk_id = codes "c"; size_bytes = 2; desired_rf = pos 1; content = codes "xy" }

put_works : (put_chunk_rpc cluster 9 one_poll placement keep_order request).0 ≡ answer (4, entries)
unfolding put_chunk_rpc find same select_nodes get_alive_nodes values replicate write append
    read_entry commit insert wal_key cmt_key be_bytes decode_entry encode_entry from_be get_chunk
    next_version apply_wal_entry byte_type put_payload comma_list to_string int_to_string
    apply_put_chunk stoull stoi split_nonempty
put_works = refl

put_chunk_rpc-stores_example :
    (4 ≡ next_version coordinator (codes "c"))
    × (get_chunk
          (put_chunk_rpc cluster 9 one_poll placement keep_order request).1.leader.coord
          (codes "c")
        ≡ some (entry_of request 4 entries))
unfolding to_string int_to_string comma_list put_payload
put_chunk_rpc-stores_example =
    put_chunk_rpc-stores memory-laws cluster [] 9 one_poll placement keep_order request 4 entries
      (leader-IsReady 1 (omega arith))
      (record {
        name = c-IsName;
        size_fits = omega arith;
        rf = 1;
        rf_is = refl;
        rf_fits = omega arith;
      })
      entries-AreReplicas (omega arith) put_works

-- A deletion, replicated.
deleted : (replicate leader 9 delete_chunk (codes "c") one_poll).0 ≡ some ok
unfolding replicate write append read_entry commit insert wal_key cmt_key be_bytes decode_entry
    encode_entry from_be find same byte_type apply_wal_entry
deleted = refl

replicate-ok_example :
    (apply_wal_entry coordinator 9
        (record { log_index = 1; term = 1; type = delete_chunk; payload = codes "c" })
      ≡ some (replicate leader 9 delete_chunk (codes "c") one_poll).1.coord)
    × IsReady memory-laws
        (replicate leader 9 delete_chunk (codes "c") one_poll).1
        ((record { log_index = 1; term = 1; type = delete_chunk; payload = codes "c" }) ∷ [])
        1
replicate-ok_example =
    replicate-ok memory-laws leader [] 1 9 delete_chunk (codes "c") one_poll
      (leader-IsReady 2 (omega arith)) (omega arith) tt deleted

abbrev waits : Waits
waits = record { now = 9; start_polls = one_poll; commit_polls = one_poll }

abbrev new_nodes : List Bytes
new_nodes = codes "n=h" ∷ codes "m=k" ∷ []
