-- ===== src/Workload.antt =====
-- src/workload/workload_gen.cpp: the load generator and its choice of chunks. Random numbers are
-- arguments.
pub mod Chunks
pub mod Loop
pub mod Threads
use final_project_nimbusvaul.Base.{
  ℕ, to_ℕ, zero, suc, ◌+◌, ◌-◌, ◌*◌, ◌/◌, ◌%◌, Bool, true, false, List, [], ◌∷◌, ◌++◌, Option, none,
  some, Bytes, codes, same, ltb, leb, if◌then◌else◌, ℤ, pos, negsuc, length, get_elem?,
}
use final_project_nimbusvaul.Base.Table.{Table}
use final_project_nimbusvaul.Text.Decimal.{to_string}
use final_project_nimbusvaul.Float.{Floats}
use final_project_nimbusvaul.Replicas.{StorageNet}
use final_project_nimbusvaul.Client.{Client, MetaNet, put, get}
use final_project_nimbusvaul.History.{HistoryTracer, OpRecord, op_put, op_get, record_op}

pub record WorkloadConfig (F : Type 0) : Type 0 where
  pub num_chunks : ℤ
  pub num_ops : ℤ
  pub chunk_size_kb : ℤ
  pub write_ratio : F
  pub hot_fraction : F
  pub hot_read_weight : F
  pub threads : ℤ
  pub meta_addr : Bytes
  pub node_addrs : Table Bytes
  pub mode : Bytes
  pub desired_rf : ℤ
  pub distribution : Bytes
  pub zipf_theta : F

-- `std::pow`, and `static_cast<int>` of a double.
pub record Powers (F : Type 0) : Type 0 where
  pub pow : F → F → F
  pub trunc : F → ℤ

pub record WorkloadGen (F : Type 0) : Type 0 where
  pub cfg : WorkloadConfig F
  pub chunk_ids : List Bytes
  pub hot_count : ℕ
  pub cold_count : ℕ
  pub zipf_h : F

-- `if (n < 1) n = 1;`
unfoldable pub at_least_one : ℤ → ℕ
at_least_one (pos zero) = 1
at_least_one (pos (suc n)) = suc n
at_least_one (negsuc n) = 1

unfoldable pub chunk_name : ℕ → Bytes
chunk_name i = codes "chunk_" ++ to_string i

-- The names from `i` on.
unfoldable pub chunk_names : ℕ → ℕ → List Bytes
unfolding chunk_name
chunk_names zero i = []
chunk_names (suc n) i = chunk_name i ∷ chunk_names n (suc i)

unfoldable pub cold_of : ℕ → ℕ → ℕ
cold_of num_chunks hot = if leb num_chunks hot then 1 else num_chunks - hot

-- What one round draws: two numbers in [0, 1), an index below a bound, and two clock readings.
pub record Draws (F : Type 0) : Type 0 where
  pub unit : F
  pub below : ℕ → ℕ
  pub op : F
  pub start_us : ℕ
  pub latency_us : ℕ

module _ {F : Type 0} ⦃fl : Floats F⦄ where
  unfoldable pub clamp_fraction : F → F
  clamp_fraction x =
      let low = if fl.lt x (fl.decimal 0 0) then fl.decimal 0 0 else x in
      if fl.lt (fl.decimal 1 0) low then fl.decimal 1 0 else low

  module _ ⦃powers : Powers F⦄ where
    -- `1.0 / std::pow(i, theta)`.
    unfoldable pub weight : F → ℕ → F
    weight theta i = fl.div (fl.decimal 1 0) (powers.pow (fl.of_nat i) theta)

    unfoldable pub zipf_sum : F → ℕ → ℕ → F → F
    unfolding weight
    zipf_sum theta zero i sum = sum
    zipf_sum theta (suc n) i sum = zipf_sum theta n (suc i) (fl.add sum (weight theta i))

    -- The constructor with `num_chunks` not negative.
    unfoldable pub generator : WorkloadConfig F → ℕ → WorkloadGen F
    unfolding at_least_one chunk_names cold_of clamp_fraction zipf_sum
    generator cfg n =
        let fraction = clamp_fraction cfg.hot_fraction in
        let hot = at_least_one (powers.trunc (fl.mul (fl.of_nat n) fraction)) in
        record {
          cfg = record cfg { hot_fraction = fraction };
          chunk_ids = chunk_names n 0;
          hot_count = hot;
          cold_count = cold_of n hot;
          zipf_h = zipf_sum cfg.zipf_theta n 1 (fl.decimal 0 0);
        }

    -- `none` is the exception of `reserve` at a negative size.
    unfoldable pub new_generator : WorkloadConfig F → Option (WorkloadGen F)
    unfolding generator
    new_generator cfg = elim cfg.num_chunks [ pos n ↦ some (generator cfg n) | negsuc n ↦ none ]

    -- The loop from `i`, counted from 0, with `n` rounds left; `last` is what the end returns.
    unfoldable pub zipf_loop : F → F → ℕ → ℕ → ℕ → F → ℕ
    unfolding weight
    zipf_loop theta target last zero i cumulative = last
    zipf_loop theta target last (suc n) i cumulative =
        let sum = fl.add cumulative (weight theta (suc i)) in
        let more = zipf_loop theta target last n (suc i) sum in if fl.le target sum then i else more

    -- The index, if there is a chunk; `N - 1` is -1 if there is none.
    unfoldable pub zipf_sample : ℕ → F → F → F → Option ℕ
    unfolding zipf_loop
    zipf_sample zero theta h u = none
    zipf_sample (suc n) theta h u = some (zipf_loop theta (fl.mul u h) n (suc n) 0 (fl.decimal 0 0))

    -- `chunk_ids_[i]`; `none` is an index out of range, which the code does not check.
    unfoldable pub chunk_at : WorkloadGen F → ℕ → Bytes → Option (Bytes × Bytes)
    chunk_at g i tier = elim (get_elem? g.chunk_ids i) [ none ↦ none | some id ↦ some (id, tier) ]

    unfoldable pub ranked : WorkloadGen F → Option ℕ → Option (Bytes × Bytes)
    unfolding chunk_at
    ranked g none = none
    ranked g (some i) = chunk_at g i (if ltb i g.hot_count then codes "hot" else codes "cold")

    -- The chunk and its tier.
    unfoldable pub pick_chunk : WorkloadGen F → Draws F → Option (Bytes × Bytes)
    unfolding ranked chunk_at zipf_sample
    pick_chunk g d =
        let n = length g.chunk_ids in
        if same g.cfg.distribution (codes "zipfian")
        then ranked g (zipf_sample n g.cfg.zipf_theta g.zipf_h d.unit)
        else if same g.cfg.distribution (codes "uniform")
        then ranked g (some (d.below n))
        else if fl.lt d.unit g.cfg.hot_read_weight
        then chunk_at g (d.below g.hot_count) (codes "hot")
        else chunk_at g (g.hot_count + d.below g.cold_count) (codes "cold")
