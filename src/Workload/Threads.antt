-- ===== src/Workload/Threads.antt =====
-- The rounds of the threads of a run, in any interleaving.
use final_project_nimbusvaul.Base.{
  ◌≢◌, ℕ, zero, suc, ◌+◌, ◌*◌, ◌/◌, ◌%◌, min, ◌<◌, ◌≡◌, refl, ap, sym, ◌∙◌, List, [], ◌∷◌, Option,
  none, some, Bytes, arith, if◌then◌else◌, length, length-append, get_elem?, inl, inr, Option-cases,
  if_elim, ℤ, pos, negsuc, to_ℕ,
}
use native.Mathlib.Nat.{suc-mul, zero-mul, mod-lt, div-add-mod}
use final_project_nimbusvaul.Float.{Floats}
use final_project_nimbusvaul.Replicas.{StorageNet}
use final_project_nimbusvaul.Client.{MetaNet}
use final_project_nimbusvaul.History.{record_op}
use final_project_nimbusvaul.Workload.Chunks.{at_least_one_pos}
use final_project_nimbusvaul.Workload.{Powers, WorkloadGen, Draws, pick_chunk, at_least_one}
use final_project_nimbusvaul.Workload.Loop.{
  Load, put_step, get_step, worker_step, payload_of, ops_of, thread_ops, all_ops,
}

unfoldable pub sum_of : List ℕ → ℕ
sum_of [] = 0
sum_of (n ∷ ns) = n + sum_of ns

-- A thread's rounds less the one that it runs.
unfoldable pub set_at : ℕ → ℕ → List ℕ → List ℕ
set_at i n [] = []
set_at zero n (m ∷ ms) = n ∷ ms
set_at (suc i) n (m ∷ ms) = m ∷ set_at i n ms

sum-set_at :
    (t n : ℕ) (ms : List ℕ)
    → get_elem? ms t ≡ some (suc n)
    → sum_of ms ≡ suc (sum_of (set_at t n ms))
unfolding sum_of set_at
sum-set_at t n [] e = absurd (cc)
sum-set_at zero n (m ∷ ms) e = let is : m ≡ suc n = some_eq e in omega (arith, is)
  where
    some_eq : {a b : ℕ} → some a ≡ some b → a ≡ b
    some_eq q = cc
sum-set_at (suc t) n (m ∷ ms) e = omega (arith, sum-set_at t n ms e)

ops-min :
    (n threads t : ℕ)
    → ops_of (pos n) threads t + min t (n % threads) ≡ n / threads + min (suc t) (n % threads)
unfolding ops_of
ops-min n threads t = ground arith

thread_ops-sum :
    (n threads k t : ℕ)
    → sum_of (thread_ops (pos n) threads k t) + min t (n % threads)
      ≡ k * (n / threads) + min (t + k) (n % threads)
unfolding sum_of thread_ops
thread_ops-sum n threads zero t = omega (arith, zero-mul (n / threads))
thread_ops-sum n threads (suc k) t =
    omega (arith, ops-min n threads t, thread_ops-sum n threads k (suc t), suc-mul k (n / threads))

thread_ops-none : (n threads k t : ℕ) → sum_of (thread_ops (negsuc n) threads k t) ≡ 0
unfolding sum_of thread_ops ops_of
thread_ops-none n threads zero t = refl
thread_ops-none n threads (suc k) t = omega (arith, thread_ops-none n threads k (suc t))

thread_ops-all :
    (num_ops : ℤ) (threads : ℕ)
    → 0 < threads
    → sum_of (thread_ops num_ops threads threads 0) ≡ to_ℕ num_ops
thread_ops-all (pos n) threads h =
    let low = mod-lt n h in
    omega (arith, thread_ops-sum n threads threads 0, low, div-add-mod n threads)
thread_ops-all (negsuc n) threads h = thread_ops-none n threads threads 0

pub record Running (M N : Type 0) : Type 0 where
  pub load : Load M N
  pub left : List ℕ

module _ {M N F : Type 0} ⦃coordinator : MetaNet M⦄ ⦃net : StorageNet N⦄ ⦃fl : Floats F⦄
    ⦃powers : Powers F⦄ (g : WorkloadGen F) (sleep : N → N) where
  -- One of the threads that have rounds left runs one; rounds of different threads may come in any
  -- order.
  pub data LoadStep (r : Running M N) : Running M N → Type 0 where
    round :
        (t n : ℕ) (d : Draws F) (s : Load M N)
        → get_elem? r.left t ≡ some (suc n)
        → worker_step g sleep r.load d ≡ some s
        → LoadStep r (record { load = s; left = set_at t n r.left })

  pub data LoadSteps (r : Running M N) : Running M N → Type 0 where
    begun : LoadSteps r r
    later : {s t : Running M N} → LoadSteps r s → LoadStep s t → LoadSteps r t

  abbrev pub recorded : Running M N → ℕ
  recorded r = length r.load.tracer.records

  put_step-grows :
      (s : Load M N) (id payload tier : Bytes) (rf : ℤ) (start_us latency_us : ℕ)
      → length (put_step s id payload rf tier start_us latency_us).tracer.records
        ≡ suc (length s.tracer.records)
  unfolding put_step record_op
  put_step-grows s id payload tier rf start_us latency_us =
      omega (arith, length-append s.tracer.records)

  get_step-grows :
      (s : Load M N) (id tier : Bytes) (start_us latency_us : ℕ)
      → length (get_step sleep s id tier start_us latency_us).tracer.records
        ≡ suc (length s.tracer.records)
  unfolding get_step record_op
  get_step-grows s id tier start_us latency_us = omega (arith, length-append s.tracer.records)

  worker_step-records :
      (s s' : Load M N) (d : Draws F)
      → worker_step g sleep s d ≡ some s'
      → length s'.tracer.records ≡ suc (length s.tracer.records)
  unfolding worker_step
  worker_step-records s s' d e = elim (Option-cases (pick_chunk g d)) [
    | inl outside ↦
        let stopped : worker_step g sleep s d ≡ none = rw (outside, worker_step) refl in absurd (cc)
    | inr ((id, tier), picked) ↦
        let put_next =
          put_step s id (payload_of g.cfg) g.cfg.desired_rf tier d.start_us d.latency_us in
        let get_next = get_step sleep s id tier d.start_us d.latency_us in
        let is : worker_step g sleep s d
            ≡ (if fl.lt d.op g.cfg.write_ratio then some put_next else some get_next) =
          rw (picked, worker_step) refl in
        if_elim
          (λ (o : Option (Load M N)).
            o ≡ some s' → length s'.tracer.records ≡ suc (length s.tracer.records))
          (fl.lt d.op g.cfg.write_ratio) (some put_next) (some get_next)
          (λ w q.
            ap (λ (k : Load M N). length k.tracer.records) (sym (load_eq q))
            ∙ put_step-grows s id _ tier _ _ _)
          (λ w q.
            ap (λ (k : Load M N). length k.tracer.records) (sym (load_eq q))
            ∙ get_step-grows s id tier _ _)
          (sym is ∙ e)
  ]
    where
      load_eq : {a b : Load M N} → some a ≡ some b → a ≡ b
      load_eq q = cc

  worker_step_goes :
      (s : Load M N) (d : Draws F) (picked : Bytes × Bytes)
      → pick_chunk g d ≡ some picked
      → worker_step g sleep s d ≢ none
  unfolding worker_step
  worker_step_goes s d (id, tier) chosen =
      rw (chosen, worker_step)
        (if_elim (λ (o : Option (Load M N)). o ≢ none) (fl.lt d.op g.cfg.write_ratio) _ _
          (λ _ q. absurd (cc)) (λ _ q. absurd (cc)))

  -- Rounds that were run are recorded, and the rest is left.
  steps_count :
      {r s : Running M N} → LoadSteps r s → recorded s + sum_of s.left ≡ recorded r + sum_of r.left
  steps_count begun = refl
  steps_count (later before (round t n d s' there went)) =
      omega (arith, steps_count before, worker_step-records _ s' d went, sum-set_at t n _ there)

  unfoldable pub rounds_of : {r s : Running M N} → LoadSteps r s → ℕ
  rounds_of begun = 0
  rounds_of (later before last) = suc (rounds_of before)

  rounds_recorded :
      {r s : Running M N} (run : LoadSteps r s) → recorded s ≡ recorded r + rounds_of run
  unfolding rounds_of
  rounds_recorded begun = omega arith
  rounds_recorded (later before (round t n d s' there went)) =
      omega (arith, rounds_recorded before, worker_step-records _ s' d went)

  step_possible :
      (r : Running M N) (t n : ℕ) (d : Draws F) (picked : Bytes × Bytes)
      → get_elem? r.left t ≡ some (suc n)
      → pick_chunk g d ≡ some picked
      → (s : Running M N) × LoadStep r s
  step_possible r t n d picked there chosen = elim (Option-cases (worker_step g sleep r.load d)) [
    | inr (load, went) ↦
        (record { load = load; left = set_at t n r.left }, round t n d load there went)
    | inl stopped ↦ absurd (worker_step_goes r.load d picked chosen stopped)
  ]

  -- However the rounds of the threads are interleaved: each round that was run is recorded; the
  -- rounds that were run and those that are left are together the operations that were asked for
  -- (none for a negative number), so that every run ends; and while a thread has rounds left, it
  -- can run one with every draw that picks a chunk.
  pub run-ends :
      (s : Load M N) {r : Running M N}
      (run : LoadSteps (record { load = s; left = all_ops g.cfg }) r)
      → (length r.load.tracer.records ≡ length s.tracer.records + rounds_of run)
        × (rounds_of run + sum_of r.left ≡ to_ℕ g.cfg.num_ops)
        × ((t n : ℕ) (d : Draws F) (picked : Bytes × Bytes)
            → get_elem? r.left t ≡ some (suc n)
            → pick_chunk g d ≡ some picked
            → (next : Running M N) × LoadStep r next)
  unfolding all_ops
  run-ends s {r} run =
      let counted = steps_count run in
      let shown = rounds_recorded run in
      let asked =
        thread_ops-all g.cfg.num_ops (at_least_one g.cfg.threads)
          (at_least_one_pos g.cfg.threads) in
      (shown, omega (arith, counted, shown, asked), λ t n d picked. step_possible r t n d picked)
