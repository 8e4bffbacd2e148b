-- ===== src/Examples/Loads.antt =====
-- Summaries of histories and runs of the load generator.
use final_project_nimbusvaul.Base.{
  suc, Bytes, ◌+◌, get_elem?, ℕ, ◌≡◌, refl, Bool, true, false, List, [], ◌∷◌, none, some, codes,
  same, arith, inr, ℤ, pos, length,
}
use final_project_nimbusvaul.History.{HistoryTracer, OpRecord, op_get, get_stats}
use final_project_nimbusvaul.History.Ranks.{IsPercentile, count_if, failed, get_stats-ranks}
use final_project_nimbusvaul.Workload.{
  WorkloadConfig, Powers, WorkloadGen, Draws, generator, chunk_name, pick_chunk,
}
use final_project_nimbusvaul.Workload.Loop.{Load, get_step, worker_step, all_ops}
use final_project_nimbusvaul.Workload.Chunks.{IsPick, pick_chunk-IsPick, pick_chunk-overruns}
use final_project_nimbusvaul.Workload.Threads.{
  Running, LoadSteps, begun, later, round, set_at, run-ends, rounds_of, sum_of, LoadStep,
}
use final_project_nimbusvaul.Examples.{whole}
use final_project_nimbusvaul.Examples.Clients.{waking, one_chunk, no_stubs, pause}
use final_project_nimbusvaul.Examples.Sorting.{insertion_sort, insertion_sort-IsSort}

abbrev read_in : ℕ → Bool → OpRecord
read_in latency ok = record {
  type_of = op_get;
  chunk_id = codes "c";
  start_us = 5;
  latency_us = latency;
  ok = ok;
  size = 1;
  tier = codes "hot";
}

abbrev history : HistoryTracer
history = record {
  file = none;
  records = read_in 30 true ∷ read_in 10 false ∷ read_in 20 true ∷ [];
}

abbrev up : ℕ → ℕ
up x = x

get_stats-ranks_example :
    let s = get_stats up insertion_sort history in
    let lat : List ℕ = 30 ∷ 10 ∷ 20 ∷ [] in
    (s.total_ops ≡ 3)
    × (s.errors ≡ count_if failed history.records)
    × IsPercentile up lat 50 s.p50_us
    × IsPercentile up lat 95 s.p95_us
    × IsPercentile up lat 99 s.p99_us
get_stats-ranks_example =
    get_stats-ranks up insertion_sort history insertion_sort-IsSort (omega arith) (omega arith)

instance abbrev powers : Powers ℕ
powers = record { pow = λ x y. 1; trunc = pos }

abbrev few_chunks : ℕ → ℤ → WorkloadConfig ℕ
few_chunks hot ops = record {
  num_chunks = pos 4;
  num_ops = ops;
  chunk_size_kb = pos 0;
  write_ratio = 0;
  hot_fraction = hot;
  hot_read_weight = 0;
  threads = pos 1;
  meta_addr = [];
  node_addrs = [];
  mode = [];
  desired_rf = pos 3;
  distribution = codes "hot_cold";
  zipf_theta = 1;
}

abbrev draws : Draws ℕ
draws = record { unit = 0; below = λ k. 0; op = 0; start_us = 7; latency_us = 3 }

one_hot : (generator (few_chunks 0 (pos 1)) 4).hot_count ≡ 1
unfolding generator
one_hot = refl

pick_chunk-IsPick_example :
    IsPick
      (generator (few_chunks 0 (pos 1)) 4)
      4
      (pick_chunk (generator (few_chunks 0 (pos 1)) 4) draws)
pick_chunk-IsPick_example =
    pick_chunk-IsPick (few_chunks 0 (pos 1)) 4 draws (omega arith) (λ k h. h)
      (inr (inr (omega (arith, one_hot))))

all_hot : (generator (few_chunks 1 (pos 1)) 4).hot_count ≡ 4
unfolding generator
all_hot = refl

pick_chunk-overruns_example : pick_chunk (generator (few_chunks 1 (pos 1)) 4) draws ≡ none
unfolding same
pick_chunk-overruns_example =
    pick_chunk-overruns (few_chunks 1 (pos 1)) 4 draws (omega (arith, all_hot)) refl refl refl

abbrev before_run : Load Unit ℕ
before_run = record {
  client = no_stubs;
  meta = tt;
  network = 0;
  tracer = record { file = none; records = [] };
}

abbrev one_op : WorkloadGen ℕ
one_op = generator (few_chunks 0 (pos 1)) 4

abbrev after_run : Load Unit ℕ
after_run =
    get_step ⦃coordinator = one_chunk⦄ ⦃net = waking⦄ pause before_run (chunk_name 1) (codes "cold")
      7 3

one_round :
    worker_step ⦃coordinator = one_chunk⦄ ⦃net = waking⦄ one_op pause before_run draws
    ≡ some after_run
unfolding worker_step generator same
one_round = refl

whole_run :
    LoadSteps ⦃coordinator = one_chunk⦄ ⦃net = waking⦄ one_op pause
      (record { load = before_run; left = all_ops one_op.cfg })
      (record { load = after_run; left = 0 ∷ [] })
unfolding all_ops generator set_at
whole_run = later begun (round 0 0 draws after_run refl one_round)

run-ends_example :
    (length after_run.tracer.records
      ≡ 0 + rounds_of ⦃coordinator = one_chunk⦄ ⦃net = waking⦄ one_op pause whole_run)
    × (rounds_of ⦃coordinator = one_chunk⦄ ⦃net = waking⦄ one_op pause whole_run + sum_of (0 ∷ [])
        ≡ 1)
    × ((t n : ℕ) (d : Draws ℕ) (picked : Bytes × Bytes)
        → get_elem? (0 ∷ []) t ≡ some (suc n)
        → pick_chunk one_op d ≡ some picked
        → (next : Running Unit ℕ) × LoadStep ⦃coordinator = one_chunk⦄ ⦃net = waking⦄ one_op pause
            (record { load = after_run; left = 0 ∷ [] })
            next)
unfolding generator
run-ends_example =
    run-ends ⦃coordinator = one_chunk⦄ ⦃net = waking⦄ one_op pause before_run whole_run
