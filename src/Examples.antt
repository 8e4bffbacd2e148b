-- ===== src/Examples.antt =====
-- Small servers, nodes and numbers at which the theorems are applied.
pub mod Clients
mod Log
mod Metadata
mod Storage
mod Tables
mod Repairs
mod Sorting
mod Loads
mod Fleets
mod Starts
use final_project_nimbusvaul.Base.{
  ℕ, zero, suc, ◌+◌, ◌-◌, ◌*◌, ◌/◌, ◌<◌, ◌≡◌, ◌≢◌, refl, Bool, true, false, List, [], ◌∷◌, ◌++◌,
  Option, none, some, Bytes, codes, ltb, leb, ℤ, pos, u64, arith, All, Lacks, same_iff, ◌==◌,
  if◌then◌else◌,
}
use final_project_nimbusvaul.Text.Decimal.{to_string, scan}
use final_project_nimbusvaul.Text.Decimal.RoundTrip.{
  to_string-All, to_string-ne-nil, Lacks-digits, scan-to_string,
}
use final_project_nimbusvaul.Rocks.Memory.{Memory, memory}
use final_project_nimbusvaul.Rocks.Memory.Laws.{memory-laws}
use final_project_nimbusvaul.Float.{Floats, FloatText}
use final_project_nimbusvaul.Wal.{Wal, WalEntry, put_chunk, delete_chunk}
use final_project_nimbusvaul.Wal.Log.{IsLog}
use final_project_nimbusvaul.Apply.RoundTrip.{IsName, IsReplica, AreReplicas}
use final_project_nimbusvaul.Coordinator.{Coordinator, NodeEntry, ChunkEntry, stable, fresh}
use final_project_nimbusvaul.Placement.{PlacementConfig}
use final_project_nimbusvaul.Placement.Choice.{IsShuffle}
use final_project_nimbusvaul.Replication.{Replication, Ack}
use final_project_nimbusvaul.Replicas.{StorageNet}
use final_project_nimbusvaul.Server.{Leader}
use final_project_nimbusvaul.Server.Commits.{IsReady}
use final_project_nimbusvaul.Reconfig.{Cluster, Waits}

-- Whole numbers in the place of floats.
instance abbrev pub whole : Floats ℕ
whole = record {
  decimal = λ n k. n;
  of_nat = λ n. n;
  add = λ a b. a + b;
  sub = λ a b. a - b;
  mul = λ a b. a * b;
  div = λ a b. a / b;
  exp_neg = λ x. 0;
  lt = ltb;
  le = leb;
  to_string = to_string;
  stof = λ s. some (scan 0 s);
}

abbrev pub whole_text : FloatText whole
whole_text = record {
  rounded = λ x. x;
  stof-to_string = λ x i. some (scan-to_string x i);
  to_string-IsText = λ x. (
    to_string-ne-nil x,
    Lacks-digits b'|' (to_string x) (λ d. omega (arith, d.0, d.1)) (to_string-All x),
    Lacks-digits b';' (to_string x) (λ d. omega (arith, d.0, d.1)) (to_string-All x),
  );
}

-- Storage nodes that take every write and answer every read with the version asked for.
instance abbrev pub willing : StorageNet Unit
willing = record {
  write_rpc = λ n addr id version content. (true, tt);
  fetch_rpc = λ n addr id version. (([], true), tt);
  read_rpc = λ n addr id version. (some ([], version), tt);
  delete_rpc = λ n addr id. tt;
}

-- Storage nodes that answer no call; a number stands for the network.
instance abbrev pub refusing : StorageNet ℕ
refusing = record {
  write_rpc = λ n addr id version content. (false, n);
  fetch_rpc = λ n addr id version. (([], false), n);
  read_rpc = λ n addr id version. (none, n);
  delete_rpc = λ n addr id. n;
}

abbrev pub empty_log : Wal Memory
empty_log = record { store = []; last_index = 0; committed = 0 }

pub empty_log-IsLog : IsLog empty_log []
empty_log-IsLog = record {
  fits = omega arith;
  counted = refl;
  bounded = omega arith;
  entries = λ i h. absurd (omega arith);
}

abbrev pub node : NodeEntry ℕ
node = record {
  node_id = codes "n";
  address = codes "h";
  load_fraction = 0;
  free_bytes = 4;
  total_bytes = 8;
  failure_rate_7d = 0;
  last_seen_ms = 5;
  alive = true;
}

abbrev pub chunk : ChunkEntry
chunk = record {
  chunk_id = codes "c";
  version = 3;
  replica_set = codes "n=h" ∷ [];
  replication_factor = pos 1;
  config_state = stable;
  old_replica_set = [];
  size_bytes = 2;
}

abbrev pub coordinator : Coordinator ℕ
coordinator = record { chunk_table = (codes "c", chunk) ∷ []; node_table = (codes "n", node) ∷ [] }

abbrev pub replication : Replication Memory
replication = record {
  wal = empty_log;
  heartbeat_interval_ms = 200;
  term = 1;
  followers = [];
  ack_counts = [];
}

abbrev pub leader : Leader ℕ Memory
leader = record { coord = coordinator; repl = replication }

abbrev pub cluster : Cluster ℕ Memory Unit
cluster = record { leader = leader; network = tt }

pub leader-IsReady : (n : ℕ) → n < 10 → IsReady memory-laws leader [] n
leader-IsReady n h = record { log = empty_log-IsLog; room = omega arith; term_fits = omega arith }

abbrev pub cut_off : Cluster ℕ Memory ℕ
cut_off = record { leader = leader; network = 0 }

-- One poll, with no acks: enough where there is no follower.
abbrev pub one_poll : List (List Ack)
one_poll = [] ∷ []

abbrev pub placement : PlacementConfig ℕ
placement = record { w_load = 1; w_cap = 1; w_rel = 1; w_div = 1; random_placement = false }

abbrev pub keep_order : List (NodeEntry ℕ) → List (NodeEntry ℕ)
keep_order ns = ns

pub keep_order-IsShuffle : IsShuffle keep_order
keep_order-IsShuffle = record {
  same_length = λ ns. refl;
  same_members = λ ns id. refl;
  same_distinct = λ ns d. d;
}

-- A test for the absence of a byte.
abbrev pub free_of : ℕ → Bytes → Bool
free_of d [] = true
free_of d (c ∷ s) = if c == d then false else free_of d s

pub free_of-Lacks : (d : ℕ) (s : Bytes) → free_of d s ≡ true → Lacks d s
free_of-Lacks d [] h = tt
free_of-Lacks d (c ∷ s) h = ((λ e. absurd (ground arith)), free_of-Lacks d s (ground arith))

pub c-IsName : IsName (codes "c")
c-IsName = ((λ e. absurd (cc)), free_of-Lacks b'|' (codes "c") refl)

pub n_h-IsReplica : IsReplica (codes "n=h")
n_h-IsReplica = (
  (λ e. absurd (cc)),
  free_of-Lacks b',' (codes "n=h") refl,
  free_of-Lacks b'|' (codes "n=h") refl,
)

abbrev pub entries : List Bytes
entries = codes "n=h" ∷ []

pub entries-AreReplicas : AreReplicas entries
entries-AreReplicas = record { some_replica = λ e. absurd (cc); each = (n_h-IsReplica, tt) }
