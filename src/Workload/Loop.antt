-- ===== src/Workload/Loop.antt =====
-- The rounds of the load generator's threads.
use final_project_nimbusvaul.Base.{
  ℕ, to_ℕ, zero, suc, ◌+◌, ◌*◌, ◌/◌, ◌%◌, List, [], ◌∷◌, Option, none, some, Bytes, ltb,
  if◌then◌else◌, ℤ, pos, negsuc, length,
}
use final_project_nimbusvaul.Float.{Floats}
use final_project_nimbusvaul.Replicas.{StorageNet}
use final_project_nimbusvaul.Client.{Client, MetaNet, put, get}
use final_project_nimbusvaul.History.{HistoryTracer, op_put, op_get, record_op}
use final_project_nimbusvaul.Workload.{
  WorkloadConfig, WorkloadGen, Powers, Draws, at_least_one, pick_chunk,
}

-- `std::string(n, 'x')`.
unfoldable pub filled : ℕ → Bytes
filled zero = []
filled (suc n) = b'x' ∷ filled n

-- A negative size is not shown: the string's constructor throws, and nothing is run.
unfoldable pub payload_of : {F : Type 0} → WorkloadConfig F → Bytes
unfolding filled
payload_of cfg = filled (to_ℕ cfg.chunk_size_kb * 1024)

-- The client, what it talks to, and the tracer.
pub record Load (M N : Type 0) : Type 0 where
  pub client : Client
  pub meta : M
  pub network : N
  pub tracer : HistoryTracer

module _ {M N : Type 0} ⦃coordinator : MetaNet M⦄ ⦃net : StorageNet N⦄ where
  unfoldable pub put_step : Load M N → Bytes → Bytes → ℤ → Bytes → ℕ → ℕ → Load M N
  put_step s id payload rf tier start_us latency_us =
      let done = put s.meta id payload rf in
      record s {
        meta = done.1;
        tracer = record_op s.tracer (record {
          type_of = op_put;
          chunk_id = id;
          start_us = start_us;
          latency_us = latency_us;
          ok = done.0.ok;
          size = length payload;
          tier = tier;
        });
      }

  unfoldable pub get_step : (N → N) → Load M N → Bytes → Bytes → ℕ → ℕ → Load M N
  get_step sleep s id tier start_us latency_us =
      let done = get sleep s.client s.meta s.network id 0 in
      record {
        client = done.1;
        meta = done.2;
        network = done.3;
        tracer = record_op s.tracer (record {
          type_of = op_get;
          chunk_id = id;
          start_us = start_us;
          latency_us = latency_us;
          ok = done.0.ok;
          size = length done.0.content;
          tier = tier;
        });
      }

  unfoldable pub preload : Load M N → Bytes → ℤ → List Bytes → Load M N
  preload s payload rf [] = s
  preload s payload rf (id ∷ ids) =
      preload (record s { meta = (put s.meta id payload rf).1 }) payload rf ids

  module _ {F : Type 0} ⦃fl : Floats F⦄ ⦃powers : Powers F⦄ where
    -- One round of `worker_loop`; `none` is an index out of range.
    unfoldable pub worker_step : WorkloadGen F → (N → N) → Load M N → Draws F → Option (Load M N)
    unfolding pick_chunk put_step get_step payload_of
    worker_step g sleep s d = elim (pick_chunk g d) [
      | none ↦ none
      | some (id, tier) ↦
          if fl.lt d.op g.cfg.write_ratio
          then some (put_step s id (payload_of g.cfg) g.cfg.desired_rf tier d.start_us d.latency_us)
          else some (get_step sleep s id tier d.start_us d.latency_us)
    ]

    unfoldable pub worker_loop :
        WorkloadGen F → (N → N) → Load M N → List (Draws F) → Option (Load M N)
    unfolding worker_step
    worker_loop g sleep s [] = some s
    worker_loop g sleep s (d ∷ ds) = elim (worker_step g sleep s d) [
      | none ↦ none
      | some s' ↦ worker_loop g sleep s' ds
    ]

-- The rounds of thread `t` of `threads`.
unfoldable pub ops_of : ℤ → ℕ → ℕ → ℕ
ops_of (pos n) threads t = n / threads + (if ltb t (n % threads) then 1 else 0)
ops_of (negsuc n) threads t = 0

-- The rounds of the threads from `t` on.
unfoldable pub thread_ops : ℤ → ℕ → ℕ → ℕ → List ℕ
unfolding ops_of
thread_ops num_ops threads zero t = []
thread_ops num_ops threads (suc k) t =
    ops_of num_ops threads t ∷ thread_ops num_ops threads k (suc t)

-- The loads of the threads that `run` starts.
unfoldable pub all_ops : {F : Type 0} → WorkloadConfig F → List ℕ
unfolding thread_ops at_least_one
all_ops cfg = let threads = at_least_one cfg.threads in thread_ops cfg.num_ops threads threads 0
