-- ===== src/Programs/Runner.antt =====
-- The options of src/bin/workload_runner.cpp, and the two passes of its comparison.
use final_project_nimbusvaul.Base.{
  List, [], ◌∷◌, ◌++◌, Option, none, some, Bytes, codes, same, ◌==◌, if◌then◌else◌, ℤ, pos,
}
use final_project_nimbusvaul.Text.Decimal.{stoi}
use final_project_nimbusvaul.Text.Split.{split_eq}
use final_project_nimbusvaul.Float.{Floats}
use final_project_nimbusvaul.Replicas.{is_empty}
use final_project_nimbusvaul.Workload.{WorkloadConfig}
use final_project_nimbusvaul.Cli.{parse_nodes}

pub record RunnerOptions (F : Type 0) : Type 0 where
  pub cfg : WorkloadConfig F
  pub nodes_str : Bytes
  pub output : Bytes

-- `std::stod`, where `none` stands for its exceptions.
pub record Stod (F : Type 0) : Type 0 where
  pub stod : Bytes → Option F

module _ {F : Type 0} ⦃fl : Floats F⦄ where
  abbrev pub default_workload : WorkloadConfig F
  default_workload = record {
    num_chunks = pos 100;
    num_ops = pos 10000;
    chunk_size_kb = pos 4;
    write_ratio = fl.decimal 3 1;
    hot_fraction = fl.decimal 1 1;
    hot_read_weight = fl.decimal 8 1;
    threads = pos 4;
    meta_addr = codes "127.0.0.1:9100";
    node_addrs = [];
    mode = codes "adaptive";
    desired_rf = pos 3;
    distribution = codes "hot_cold";
    zipf_theta = fl.decimal 99 2;
  }

  abbrev pub default_runner : RunnerOptions F
  default_runner = record { cfg = default_workload; nodes_str = []; output = codes "results.csv" }

module _ {F : Type 0} where
  unfoldable pub with_int :
      Option ℤ → (ℤ → WorkloadConfig F) → RunnerOptions F → Option (RunnerOptions F)
  with_int none change o = none
  with_int (some n) change o = some (record o { cfg = change n })

  unfoldable pub with_float :
      Option F → (F → WorkloadConfig F) → RunnerOptions F → Option (RunnerOptions F)
  with_float none change o = none
  with_float (some x) change o = some (record o { cfg = change x })

  -- One option; `none` is an exception of `stoi` or `stod`, and an unknown key is passed over.
  unfoldable pub set_option :
      ⦃st : Stod F⦄ → RunnerOptions F → Bytes → Bytes → Option (RunnerOptions F)
  unfolding with_int with_float
  set_option ⦃st⦄ o key val =
      if same key (codes "--meta")
      then some (record o { cfg = record o.cfg { meta_addr = val } })
      else if same key (codes "--nodes")
      then some (record o { nodes_str = val })
      else if same key (codes "--mode")
      then some (record o { cfg = record o.cfg { mode = val } })
      else if same key (codes "--chunks")
      then with_int (stoi val) (λ n. record o.cfg { num_chunks = n }) o
      else if same key (codes "--ops")
      then with_int (stoi val) (λ n. record o.cfg { num_ops = n }) o
      else if same key (codes "--chunk-size")
      then with_int (stoi val) (λ n. record o.cfg { chunk_size_kb = n }) o
      else if same key (codes "--write-ratio")
      then with_float (st.stod val) (λ x. record o.cfg { write_ratio = x }) o
      else if same key (codes "--hot-fraction")
      then with_float (st.stod val) (λ x. record o.cfg { hot_fraction = x }) o
      else if same key (codes "--threads")
      then with_int (stoi val) (λ n. record o.cfg { threads = n }) o
      else if same key (codes "--desired-rf")
      then with_int (stoi val) (λ n. record o.cfg { desired_rf = n }) o
      else if same key (codes "--distribution")
      then some (record o { cfg = record o.cfg { distribution = val } })
      else if same key (codes "--zipf-theta")
      then with_float (st.stod val) (λ x. record o.cfg { zipf_theta = x }) o
      else if same key (codes "--output")
      then some (record o { output = val })
      else some o

  -- The loop over the arguments: an argument without '=' takes the next one as its value, if there
  -- is one.
  unfoldable pub parse_options :
      ⦃st : Stod F⦄ → RunnerOptions F → List Bytes → Option (RunnerOptions F)
  unfolding set_option split_eq
  parse_options o [] = some o
  parse_options o (a ∷ []) = elim (split_eq a) [
    | some (key, val) ↦ set_option o key val
    | none ↦ set_option o a []
  ]
  parse_options o (a ∷ v ∷ args) = elim (split_eq a) [
    | some (key, val) ↦ elim (set_option o key val) [
      | none ↦ none
      | some o' ↦ parse_options o' (v ∷ args)
    ]
    | none ↦ elim (set_option o a v) [ none ↦ none | some o' ↦ parse_options o' args ]
  ]

  unfoldable pub finish_options : RunnerOptions F → RunnerOptions F
  unfolding is_empty parse_nodes
  finish_options o =
      if is_empty o.nodes_str
      then o
      else record o { cfg = record o.cfg { node_addrs = parse_nodes o.nodes_str } }

-- `base.rfind('.')`: the name up to its last dot and from it on.
unfoldable pub last_dot : Bytes → Option (Bytes × Bytes)
last_dot [] = none
last_dot (c ∷ s) = elim (last_dot s) [
  | some (stem, ext) ↦ some (c ∷ stem, ext)
  | none ↦ if c == b'.' then some ([], c ∷ s) else none
]

unfoldable pub pass_file : Bytes → Bytes → Bytes
unfolding last_dot
pass_file output suffix = elim (last_dot output) [
  | some (stem, ext) ↦ stem ++ suffix ++ ext
  | none ↦ output ++ suffix ++ codes ".csv"
]

-- A pass: its configuration and its file.
pub record Pass (F : Type 0) : Type 0 where
  pub cfg : WorkloadConfig F
  pub csv_path : Bytes

unfoldable pub passes : {F : Type 0} → RunnerOptions F → List (Pass F)
unfolding pass_file
passes o =
    if same o.cfg.mode (codes "compare")
    then ((record {
      cfg = record o.cfg { mode = codes "baseline"; desired_rf = pos 3 };
      csv_path = pass_file o.output (codes "_baseline");
    })
        ∷ (record {
          cfg = record o.cfg { mode = codes "adaptive" };
          csv_path = pass_file o.output (codes "_adaptive");
        })
        ∷ [])
    else (record { cfg = o.cfg; csv_path = o.output }) ∷ []
