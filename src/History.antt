-- ===== src/History.antt =====
-- src/client/history_tracer.cpp: the record of what a client did, and its summary.
pub mod Ranks
use final_project_nimbusvaul.Base.{
  ℕ, zero, suc, ◌+◌, ◌-◌, ◌%◌, Bool, true, false, ◌&&◌, ◌||◌, not, List, [], ◌∷◌, ◌++◌, Option,
  none, some, Bytes, codes, ltb, ◌==◌, if◌then◌else◌, u64, length, get_elem?,
}
use final_project_nimbusvaul.Text.Decimal.{to_string}
use final_project_nimbusvaul.Float.{Floats}

pub data OpType : Type 0 where
  op_put op_get op_delete : OpType

unfoldable pub op_to_str : OpType → Bytes
op_to_str op_put = codes "PUT"
op_to_str op_get = codes "GET"
op_to_str op_delete = codes "DELETE"

pub record OpRecord : Type 0 where
  pub type_of : OpType
  pub chunk_id : Bytes
  pub start_us : ℕ
  pub latency_us : ℕ
  pub ok : Bool
  pub size : ℕ
  pub tier : Bytes

-- `HistoryTracer`: what was written to the file, if it is open, and the records.
pub record HistoryTracer : Type 0 where
  pub file : Option Bytes
  pub records : List OpRecord

unfoldable pub new_tracer : Bool → HistoryTracer
new_tracer opened = record {
  file =
      if opened
      then some (codes "timestamp_us,op_type,chunk_id,latency_us,ok,bytes,tier\n")
      else none;
  records = [];
}

unfoldable pub print_to : Option Bytes → Bytes → Option Bytes
print_to none row = none
print_to (some written) row = some (written ++ row)

unfoldable pub row_of : OpRecord → Bytes
unfolding op_to_str
row_of r =
    to_string r.start_us
    ++ b',' ∷ op_to_str r.type_of
    ++ b',' ∷ r.chunk_id
    ++ b',' ∷ to_string r.latency_us
    ++ b',' ∷ (if r.ok then codes "1" else codes "0")
    ++ b',' ∷ to_string r.size
    ++ b',' ∷ r.tier
    ++ codes "\n"

unfoldable pub record_op : HistoryTracer → OpRecord → HistoryTracer
unfolding print_to row_of
record_op h r = record { file = print_to h.file (row_of r); records = h.records ++ r ∷ [] }

unfoldable pub record_tier_change : HistoryTracer → Bytes → Bytes → Bytes → ℕ → HistoryTracer
unfolding print_to
record_tier_change h chunk_id from_tier to_tier ts_us = record h {
  file = print_to h.file (
      to_string ts_us
      ++ codes ",TIER_CHANGE,"
      ++ chunk_id
      ++ codes ",0,1,0,"
      ++ from_tier
      ++ codes "->"
      ++ to_tier
      ++ codes "\n");
}

-- The variables of the loop over the records.
pub record Totals : Type 0 where
  pub errors : ℕ
  pub earliest : ℕ
  pub latest_end : ℕ
  pub bytes_put : ℕ
  pub bytes_get : ℕ
  pub ops_put : ℕ
  pub ops_get : ℕ
  pub lat : List ℕ

abbrev pub no_totals : Totals
no_totals = record {
  errors = 0;
  earliest = 0;
  latest_end = 0;
  bytes_put = 0;
  bytes_get = 0;
  ops_put = 0;
  ops_get = 0;
  lat = [];
}

unfoldable pub is_put : OpType → Bool
is_put op_put = true
is_put op_get = false
is_put op_delete = false

unfoldable pub is_get : OpType → Bool
is_get op_put = false
is_get op_get = true
is_get op_delete = false

unfoldable pub add_record : Totals → OpRecord → Totals
unfolding is_put is_get
add_record t r =
    let end_us = (r.start_us + r.latency_us) % u64 in
    record {
      errors = if r.ok then t.errors else (t.errors + 1) % u64;
      earliest = if t.earliest == 0 || ltb r.start_us t.earliest then r.start_us else t.earliest;
      latest_end = if ltb t.latest_end end_us then end_us else t.latest_end;
      bytes_put = if is_put r.type_of then (t.bytes_put + r.size) % u64 else t.bytes_put;
      bytes_get = if is_get r.type_of then (t.bytes_get + r.size) % u64 else t.bytes_get;
      ops_put = if is_put r.type_of then (t.ops_put + 1) % u64 else t.ops_put;
      ops_get = if is_get r.type_of then (t.ops_get + 1) % u64 else t.ops_get;
      lat = t.lat ++ r.latency_us ∷ [];
    }

unfoldable pub add_records : Totals → List OpRecord → Totals
unfolding add_record
add_records t [] = t
add_records t (r ∷ rs) = add_records (add_record t r) rs

-- `if (idx == 0) idx = 1; if (idx > lat.size()) idx = lat.size();`
unfoldable pub clamp_rank : ℕ → ℕ → ℕ
clamp_rank size idx = let low = if idx == 0 then 1 else idx in if ltb size low then size else low

-- `lat[i]`; no index out of range is read.
unfoldable pub at_index : List ℕ → ℕ → ℕ
at_index lat i = elim (get_elem? lat i) [ none ↦ 0 | some l ↦ l ]

unfoldable pub pct_at : List ℕ → ℕ → ℕ
unfolding at_index clamp_rank
pct_at [] idx = 0
pct_at (l ∷ lat) idx = at_index (l ∷ lat) (clamp_rank (length (l ∷ lat)) idx - 1)

pub record SummaryStats (F : Type 0) : Type 0 where
  pub total_ops : ℕ
  pub errors : ℕ
  pub throughput_ops_per_s : F
  pub p50_us : ℕ
  pub p95_us : ℕ
  pub p99_us : ℕ
  pub put_mb_per_s : F
  pub get_mb_per_s : F
  pub put_ops_per_s : F
  pub get_ops_per_s : F

module _ {F : Type 0} ⦃fl : Floats F⦄ where
  abbrev pub no_stats : SummaryStats F
  no_stats = record {
    total_ops = 0;
    errors = 0;
    throughput_ops_per_s = fl.decimal 0 0;
    p50_us = 0;
    p95_us = 0;
    p99_us = 0;
    put_mb_per_s = fl.decimal 0 0;
    get_mb_per_s = fl.decimal 0 0;
    put_ops_per_s = fl.decimal 0 0;
    get_ops_per_s = fl.decimal 0 0;
  }

  unfoldable pub seconds : Totals → F
  seconds t =
      let measured = fl.div (fl.of_nat (t.latest_end - t.earliest)) (fl.decimal 1000000 0) in
      if not (t.earliest == 0) && ltb t.earliest t.latest_end
      then if fl.lt (fl.decimal 1 0) measured then measured else fl.decimal 1 0
      else fl.decimal 1 0

  unfoldable pub mb_per_s : ℕ → F → F
  mb_per_s size dur_s =
      fl.div (fl.div (fl.of_nat size) (fl.mul (fl.decimal 1024 0) (fl.decimal 1024 0))) dur_s

  -- The rank of a percentile: `ceil` stands for `static_cast<size_t>(std::ceil(x))`.
  unfoldable pub rank_of : (F → ℕ) → ℕ → ℕ → ℕ
  rank_of ceil percent size =
      ceil (fl.mul (fl.div (fl.decimal percent 0) (fl.decimal 100 0)) (fl.of_nat size))

  -- `sort` stands for `std::sort`.
  unfoldable pub get_stats : (F → ℕ) → (List ℕ → List ℕ) → HistoryTracer → SummaryStats F
  unfolding add_records pct_at rank_of seconds mb_per_s
  get_stats ceil sort h =
      let t = add_records no_totals h.records in
      let lat = sort t.lat in
      let dur_s = seconds t in
      if length h.records == 0 then no_stats else record {
        total_ops = length h.records;
        errors = t.errors;
        throughput_ops_per_s = fl.div (fl.of_nat (length h.records)) dur_s;
        p50_us = pct_at lat (rank_of ceil 50 (length lat));
        p95_us = pct_at lat (rank_of ceil 95 (length lat));
        p99_us = pct_at lat (rank_of ceil 99 (length lat));
        put_mb_per_s = mb_per_s t.bytes_put dur_s;
        get_mb_per_s = mb_per_s t.bytes_get dur_s;
        put_ops_per_s = fl.div (fl.of_nat t.ops_put) dur_s;
        get_ops_per_s = fl.div (fl.of_nat t.ops_get) dur_s;
      }

  -- The share of errors that `print_summary` prints.
  unfoldable pub err_rate : SummaryStats F → F
  err_rate s =
      if s.total_ops == 0
      then fl.decimal 0 0
      else fl.mul (fl.div (fl.of_nat s.errors) (fl.of_nat s.total_ops)) (fl.decimal 100 0)
