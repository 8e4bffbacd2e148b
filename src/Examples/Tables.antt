-- ===== src/Examples/Tables.antt =====
-- Payloads, tables, placement and tiers.
use final_project_nimbusvaul.Base.{
  ℕ, ◌+◌, ◌≡◌, refl, true, false, List, [], ◌∷◌, some, Bytes, codes, pos, arith, length, All, same,
  min,
}
use final_project_nimbusvaul.Base.Table.{find, values}
use final_project_nimbusvaul.Rocks.Memory.{memory}
use final_project_nimbusvaul.Stream.{assemble}
use final_project_nimbusvaul.Text.Decimal.{to_string, int_to_string}
use final_project_nimbusvaul.Text.Split.{comma_list}
use final_project_nimbusvaul.Wal.{put_chunk, reconfigure_start, node_heartbeat}
use final_project_nimbusvaul.Coordinator.{
  fresh, get_chunk, get_nodes, get_chunks, get_alive_nodes, apply_put_chunk, apply_reconfig_start,
  apply_heartbeat, evict_stale_nodes,
}
use final_project_nimbusvaul.Coordinator.Lookup.{
  Update, puts, deletes, starts, run_updates, spec_run, get_chunk-run,
}
use final_project_nimbusvaul.Coordinator.Invariant.{Consistent, run_updates-Consistent}
use final_project_nimbusvaul.Coordinator.Nodes.{IsHeard, alive-evict_stale_nodes, evicts_the_future}
use final_project_nimbusvaul.Apply.{
  put_payload, encode_reconfig_start, encode_heartbeat_payload, HeartbeatReq, apply_wal_entry,
}
use final_project_nimbusvaul.Apply.RoundTrip.{
  apply-put_payload, apply-encode_reconfig_start, apply-heartbeat_payload,
}
use final_project_nimbusvaul.Placement.{member, ids, candidates_of, select_nodes}
use final_project_nimbusvaul.Placement.Members.{Distinct}
use final_project_nimbusvaul.Placement.Choice.{select_nodes-IsChoice}
use final_project_nimbusvaul.Policy.{
  cold, warm, hot, rank, PolicyConfig, ChunkAccessState, AdaptivePolicy, evaluate, state_of,
}
use final_project_nimbusvaul.Policy.Hysteresis.{
  Moved, promotion_exact, demotion_exact, Decided, record_all, sum, evaluate_decision,
}
use final_project_nimbusvaul.Reconfig.Plan.{plan}
use final_project_nimbusvaul.Reconfig.Targets.{plan-counts}
use final_project_nimbusvaul.Snapshot.{
  install_snapshot, send_snapshot, serialize_node, serialize_chunk,
}
use final_project_nimbusvaul.Snapshot.Restore.{map_table}
use final_project_nimbusvaul.Snapshot.RoundTrip.{revived, IsSavedNode, install-send_snapshot}
use final_project_nimbusvaul.Snapshot.Fields.{IsSavedChunk}
use final_project_nimbusvaul.Examples.{
  whole, whole_text, node, chunk, coordinator, placement, keep_order, keep_order-IsShuffle, entries,
  entries-AreReplicas, c-IsName, free_of-Lacks,
}

apply-put_payload_example :
    apply_wal_entry coordinator 9 (record {
      log_index = 1;
      term = 1;
      type = put_chunk;
      payload = put_payload (codes "c") 7 (pos 3) 4 entries;
    })
    ≡ some (apply_put_chunk coordinator (codes "c") 7 (pos 3) entries 4)
apply-put_payload_example =
    apply-put_payload coordinator 9 1 1 (codes "c") 7 3 4 entries c-IsName entries-AreReplicas
      (omega arith) (omega arith) (omega arith)

apply-encode_reconfig_start_example :
    apply_wal_entry coordinator 9 (record {
      log_index = 1;
      term = 1;
      type = reconfigure_start;
      payload = encode_reconfig_start (codes "c") entries entries;
    })
    ≡ some (apply_reconfig_start coordinator (codes "c") entries entries)
apply-encode_reconfig_start_example =
    apply-encode_reconfig_start coordinator 9 1 1 (codes "c") entries entries c-IsName
      entries-AreReplicas entries-AreReplicas

abbrev beat : HeartbeatReq ℕ
beat = record {
  node_id = codes "c";
  address = codes "c";
  load_fraction = 1;
  free_bytes = 2;
  total_bytes = 3;
  failure_rate_7d = 0;
  chunk_access_counts = [];
}

apply-heartbeat_payload_example :
    apply_wal_entry coordinator 9 (record {
      log_index = 1;
      term = 1;
      type = node_heartbeat;
      payload = encode_heartbeat_payload beat;
    })
    ≡ some (apply_heartbeat coordinator 9 (codes "c") (codes "c") 1 2 3 0)
apply-heartbeat_payload_example =
    apply-heartbeat_payload whole_text coordinator 9 1 1 beat c-IsName c-IsName (omega arith)
      (omega arith)

abbrev updates : List (Update ℕ)
updates =
    puts (codes "c") 2 (pos 1) entries 1
    ∷ starts (codes "c") entries entries
    ∷ deletes (codes "d")
    ∷ []

get_chunk-run_example :
    get_chunk (run_updates fresh updates) (codes "c")
    ≡ spec_run (get_chunk (fresh {F = ℕ})) updates (codes "c")
get_chunk-run_example = get_chunk-run fresh updates (codes "c")

run_updates-Consistent_example : Consistent (run_updates (fresh {F = ℕ}) updates)
unfolding get_chunk find
run_updates-Consistent_example =
    run_updates-Consistent fresh updates (refl, (tt, (tt, tt))) (λ j. tt)

alive-evict_stale_nodes_example :
    All (IsHeard 9 3) (get_alive_nodes (evict_stale_nodes coordinator 9 3))
unfolding values
alive-evict_stale_nodes_example =
    alive-evict_stale_nodes coordinator 9 3 (omega arith) (omega arith, tt)

evicts_the_future_example :
    find (codes "n") (evict_stale_nodes coordinator 4 3).node_table
    ≡ some (record node { alive = false })
unfolding find same
evicts_the_future_example =
    evicts_the_future coordinator 4 3 (codes "n") node refl (omega arith) (omega arith)
      (omega arith)

select_nodes-IsChoice_example :
    (length (select_nodes placement keep_order (pos 2) (node ∷ []) [])
      ≡ min 2 (length (candidates_of (node ∷ []) [])))
    × ((id : Bytes)
        → member id (select_nodes placement keep_order (pos 2) (node ∷ []) []) ≡ true
        → (member id (ids (node ∷ [])) ≡ true) × (member id [] ≡ false))
    × (Distinct (ids (node ∷ []))
        → Distinct (select_nodes placement keep_order (pos 2) (node ∷ []) []))
select_nodes-IsChoice_example =
    select_nodes-IsChoice placement keep_order (pos 2) (node ∷ []) [] keep_order-IsShuffle

plan-counts_example : (pos 1 ≡ pos 1) × Distinct (codes "n" ∷ [])
unfolding plan same member
plan-counts_example =
    plan-counts placement keep_order (node ∷ []) [] (pos 1) (codes "n") [] (codes "n" ∷ [])
      keep_order-IsShuffle refl

abbrev tiers : PolicyConfig ℕ
tiers = record {
  cold_threshold = 2;
  hot_threshold = 8;
  cold_rf = pos 2;
  warm_rf = pos 3;
  hot_rf = pos 5;
  ewma_half_life_s = 30;
  promote_windows = pos 3;
  demote_windows = pos 2;
}

abbrev access : ChunkAccessState ℕ
access = record {
  ewma_rate = 0;
  last_window_rate = 0;
  last_update_ms = 0;
  windows_above = 0;
  windows_below = 0;
  tier = warm;
  pending_count = 4;
  last_eval_ms = 0;
}

promotion_exact_example : Moved tiers warm hot (hot ∷ hot ∷ []) access
unfolding rank
promotion_exact_example =
    promotion_exact tiers access (hot ∷ hot ∷ []) hot (omega arith, (omega arith, tt)) (omega arith)
      refl

demotion_exact_example : Moved tiers warm cold (cold ∷ []) access
unfolding rank
demotion_exact_example =
    demotion_exact tiers access (cold ∷ []) cold (omega arith, tt) (omega arith) refl

abbrev policy : AdaptivePolicy ℕ
policy = record { cfg = tiers; state = (codes "c", access) ∷ [] }

evaluate_decision_example :
    let told = record_all policy (codes "c") (4 ∷ 3 ∷ []) in
    Decided tiers
      (codes "c")
      9
      (record access { pending_count = access.pending_count + 7 })
      (state_of (evaluate told (codes "c") 9).0 (codes "c"))
      (evaluate told (codes "c") 9).1
unfolding sum state_of find same
evaluate_decision_example = evaluate_decision policy (codes "c") (4 ∷ 3 ∷ []) 9 (omega arith)

node-IsSaved : IsSavedNode whole_text node
unfolding serialize_node to_string
node-IsSaved = record {
  id_lacks = free_of-Lacks b';' (codes "n") refl;
  address_lacks = free_of-Lacks b';' (codes "h") refl;
  free_fits = omega arith;
  total_fits = omega arith;
  seen_fits = omega arith;
  short = omega arith;
}

chunk-IsSaved : IsSavedChunk chunk
unfolding serialize_chunk to_string int_to_string comma_list
chunk-IsSaved = record {
  id_lacks = free_of-Lacks b';' (codes "c") refl;
  version_fits = omega arith;
  rf = 1;
  rf_fits = omega arith;
  rf_is = refl;
  size_fits = omega arith;
  replicas = (
    (
      (λ e. absurd (cc)),
      free_of-Lacks b',' (codes "n=h") refl,
      free_of-Lacks b';' (codes "n=h") refl,
    ),
    tt,
  );
  old_replicas = tt;
  short = omega arith;
}

install-send_snapshot_example :
    install_snapshot fresh (assemble (send_snapshot coordinator 6))
    ≡ some (
      6,
      record {
        chunk_table = coordinator.chunk_table;
        node_table = map_table (revived whole_text) coordinator.node_table;
      },
    )
unfolding get_nodes get_chunks values find
install-send_snapshot_example =
    install-send_snapshot whole_text coordinator fresh 6 (omega arith)
      (record {
        nodes = (node-IsSaved, tt);
        chunks = (chunk-IsSaved, tt);
        few_nodes = omega arith;
        few_chunks = omega arith;
      })
      (refl, refl, tt) (refl, refl, tt)
