-- ===== src/Programs.antt =====
-- The `main` functions of the two servers: src/bin/storage_server.cpp and meta_server.cpp, with the
-- configuration of src/common/config.h.
pub mod Boot
pub mod Restart
pub mod Runner
use final_project_nimbusvaul.Base.{
  ℕ, Bool, true, false, ◌||◌, List, [], ◌∷◌, ◌++◌, Option, none, some, Bytes, codes, same,
  if◌then◌else◌,
}
use final_project_nimbusvaul.Text.Decimal.{stoull}
use final_project_nimbusvaul.Text.Split.{split_nonempty}
use final_project_nimbusvaul.Replicas.{is_empty}

pub record NodeConfig : Type 0 where
  pub node_id : Bytes
  pub address : Bytes
  pub role : Bytes
  pub data_dir : Bytes
  pub peers : List Bytes
  pub capacity_bytes : ℕ
  pub mode : Bytes
  pub heartbeat_interval_ms : ℕ
  pub follower_timeout_ms : ℕ
  pub quorum_timeout_ms : ℕ
  pub stats_interval_ms : ℕ

abbrev pub default_node : NodeConfig
default_node = record {
  node_id = [];
  address = [];
  role = [];
  data_dir = [];
  peers = [];
  capacity_bytes = 0;
  mode = codes "adaptive";
  heartbeat_interval_ms = 200;
  follower_timeout_ms = 600;
  quorum_timeout_ms = 2000;
  stats_interval_ms = 1000;
}

-- What an argument and the next one are to a server: a setting with its value, a setting whose
-- value throws, or none.
pub data Setting (S : Type 0) : Type 0 where
  taken : S → Setting S
  throws : Setting S
  unknown : Setting S

-- What the arguments ask for: to start, to print the usage and exit with 0, or an exception.
pub data Parsed (S : Type 0) : Type 0 where
  ready : S → Parsed S
  help_asked : Parsed S
  aborted : Parsed S

-- The loop over the arguments; an argument that is no setting is passed over.
unfoldable pub parse_args :
    {S : Type 0} → (S → Bytes → Bytes → Setting S) → S → List Bytes → Parsed S
parse_args setting s [] = ready s
parse_args setting s (a ∷ []) = if same a (codes "--help") then help_asked else ready s
parse_args setting s (a ∷ v ∷ args) = elim (setting s a v) [
  | taken s' ↦ parse_args setting s' args
  | throws ↦ aborted
  | unknown ↦
      let rest = parse_args setting s (v ∷ args) in
      if same a (codes "--help") then help_asked else rest
]

pub record StorageSettings : Type 0 where
  pub cfg : NodeConfig
  pub meta_addr : Bytes

abbrev pub default_storage : StorageSettings
default_storage = record {
  cfg = record default_node { capacity_bytes = 10737418240 };
  meta_addr = [];
}

unfoldable pub storage_setting : StorageSettings → Bytes → Bytes → Setting StorageSettings
storage_setting s a v =
    if same a (codes "--id")
    then taken (record s { cfg = record s.cfg { node_id = v } })
    else if same a (codes "--listen")
    then taken (record s { cfg = record s.cfg { address = v } })
    else if same a (codes "--data")
    then taken (record s { cfg = record s.cfg { data_dir = v } })
    else if same a (codes "--meta")
    then taken (record s { meta_addr = v })
    else if same a (codes "--capacity")
    then elim (stoull v) [
      | none ↦ throws
      | some n ↦ taken (record s { cfg = record s.cfg { capacity_bytes = n } })
    ]
    else unknown

-- The exit code of a server that does not start, or what it starts with.
pub data Launch (S : Type 0) : Type 0 where
  exits : ℕ → Launch S
  crashes : Launch S
  starts : S → Launch S

unfoldable pub launch_if : {S : Type 0} → (S → Bool) → Parsed S → Launch S
launch_if incomplete (ready s) = if incomplete s then exits 1 else starts s
launch_if incomplete help_asked = exits 0
launch_if incomplete aborted = crashes

unfoldable pub storage_incomplete : StorageSettings → Bool
unfolding is_empty
storage_incomplete s =
    is_empty s.cfg.node_id
    || is_empty s.cfg.address
    || is_empty s.cfg.data_dir
    || is_empty s.meta_addr

unfoldable pub storage_main : List Bytes → Launch StorageSettings
unfolding parse_args storage_setting launch_if storage_incomplete
storage_main argv = launch_if storage_incomplete (parse_args storage_setting default_storage argv)

unfoldable pub meta_setting : NodeConfig → Bytes → Bytes → Setting NodeConfig
unfolding split_nonempty
meta_setting c a v =
    if same a (codes "--role")
    then taken (record c { role = v })
    else if same a (codes "--id")
    then taken (record c { node_id = v })
    else if same a (codes "--listen")
    then taken (record c { address = v })
    else if same a (codes "--data")
    then taken (record c { data_dir = v })
    else if same a (codes "--mode")
    then taken (record c { mode = v })
    else if same a (codes "--peers")
    then taken (record c { peers = c.peers ++ split_nonempty v b',' })
    else unknown

unfoldable pub meta_incomplete : NodeConfig → Bool
unfolding is_empty
meta_incomplete c = is_empty c.role || is_empty c.address || is_empty c.data_dir

unfoldable pub meta_main : List Bytes → Launch NodeConfig
unfolding parse_args meta_setting launch_if meta_incomplete
meta_main argv = launch_if meta_incomplete (parse_args meta_setting default_node argv)
