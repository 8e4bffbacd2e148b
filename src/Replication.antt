-- ===== src/Replication.antt =====
-- src/meta/meta_replication.h and meta_replication.cpp: the leader's side of the log.
pub mod Arrival
pub mod Linked
pub mod Quorum
use final_project_nimbusvaul.Base.{
  ℕ, zero, suc, ◌+◌, ◌-◌, ◌*◌, ◌/◌, ◌%◌, Bool, true, false, not, ◌||◌, ◌&&◌, List, [], ◌∷◌, Option,
  none, some, Bytes, same, ltb, leb, ◌==◌, if◌then◌else◌, u64, length, max, ◌^◌,
}
use final_project_nimbusvaul.Base.Table.{Table, find, insert}
use final_project_nimbusvaul.Rocks.{RocksDb}
use final_project_nimbusvaul.Wal.{WalEntryType, WalEntry, Wal, append, commit, read_entry}
use final_project_nimbusvaul.Follower.{AppendEntryReq}

pub data FollowerStatus : Type 0 where
  healthy lagging dead : FollowerStatus

pub record FollowerState : Type 0 where
  pub address : Bytes
  pub match_index : ℕ
  pub next_index : ℕ
  pub status : FollowerStatus
  pub last_ack_ms : ℕ
  pub missed_pings : ℕ

pub data WriteResult : Type 0 where
  ok unavailable timeout : WriteResult

-- `std::unordered_map<uint64_t, int>`.
abbrev pub AckCounts : Type 0
AckCounts = List (ℕ × ℕ)

unfoldable pub acks_of : ℕ → AckCounts → Option ℕ
acks_of idx [] = none
acks_of idx ((i, n) ∷ t) = if i == idx then some n else acks_of idx t

unfoldable pub set_acks : ℕ → ℕ → AckCounts → AckCounts
set_acks idx n [] = (idx, n) ∷ []
set_acks idx n ((i, m) ∷ t) = if i == idx then (i, n) ∷ t else (i, m) ∷ set_acks idx n t

pub record Replication (D : Type 0) : Type 0 where
  pub wal : Wal D
  pub heartbeat_interval_ms : ℕ
  pub term : ℕ
  pub followers : Table FollowerState
  pub ack_counts : AckCounts

-- A call of `record_ack` by a replication thread, with the time it reads.
pub record Ack : Type 0 where
  pub follower_addr : Bytes
  pub log_index : ℕ
  pub at_ms : ℕ

unfoldable pub acked_state : FollowerState → ℕ → ℕ → FollowerState
acked_state fs log_index now = record fs {
  match_index = max fs.match_index log_index;
  next_index = max fs.next_index ((log_index + 1) % u64);
  last_ack_ms = now;
  missed_pings = 0;
  status = healthy;
}

-- One follower in `send_heartbeats`; the interval is a `uint32_t` and its triple is one too.
unfoldable pub pinged_state : ℕ → ℕ → ℕ → FollowerState → FollowerState
pinged_state now leader_last interval fs =
    let elapsed = (now + u64 - fs.last_ack_ms) % u64 in
    if leb leader_last fs.match_index
    then record fs { missed_pings = 0; status = healthy }
    else if ltb ((interval * 3) % 2 ^ 32) elapsed
    then (if leb 3 (fs.missed_pings + 1)
        then record fs { missed_pings = fs.missed_pings + 1; status = lagging }
        else record fs { missed_pings = fs.missed_pings + 1 })
    else fs

unfoldable pub pinged_table : ℕ → ℕ → ℕ → Table FollowerState → Table FollowerState
unfolding pinged_state
pinged_table now leader_last interval [] = []
pinged_table now leader_last interval ((a, fs) ∷ t) =
    (a, pinged_state now leader_last interval fs) ∷ pinged_table now leader_last interval t

unfoldable pub count_ack : AckCounts → ℕ → AckCounts
unfolding acks_of set_acks
count_ack t log_index = elim (acks_of log_index t) [
  | none ↦ t
  | some n ↦ set_acks log_index (n + 1) t
]

module _ {D : Type 0} ⦃db : RocksDb D⦄ where
  unfoldable pub add_follower : Replication D → Bytes → ℕ → Replication D
  add_follower r address now = record r {
    followers =
        insert address
          (record {
            address = address;
            match_index = 0;
            next_index = (r.wal.last_index + 1) % u64;
            status = healthy;
            last_ack_ms = now;
            missed_pings = 0;
          })
          r.followers;
  }

  unfoldable pub record_ack : Replication D → Ack → Replication D
  unfolding count_ack acked_state
  record_ack r a = record r {
    ack_counts = count_ack r.ack_counts a.log_index;
    followers = elim (find a.follower_addr r.followers) [
      | none ↦ r.followers
      | some fs ↦ insert a.follower_addr (acked_state fs a.log_index a.at_ms) r.followers
    ];
  }

  unfoldable pub record_acks : Replication D → List Ack → Replication D
  unfolding record_ack
  record_acks r [] = r
  record_acks r (a ∷ acks) = record_acks (record_ack r a) acks

  -- `int majority_needed`: the followers that must hold the entry beside the leader.
  abbrev pub majority_needed : Replication D → ℕ
  majority_needed r = (length r.followers + 1) / 2

  unfoldable pub has_quorum : Replication D → ℕ → ℕ → Bool
  unfolding acks_of
  has_quorum r idx needed = elim (acks_of idx r.ack_counts) [ none ↦ false | some n ↦ leb needed n ]

  -- The polling loop. Each element of `polls` holds the acks that came in before that poll; the
  -- list ends at the deadline.
  unfoldable pub wait_quorum : Replication D → ℕ → ℕ → List (List Ack) → WriteResult × Replication D
  unfolding record_acks has_quorum
  wait_quorum r idx needed [] = (unavailable, r)
  wait_quorum r idx needed (acks ∷ polls) =
      let r' = record_acks r acks in
      elim (has_quorum r' idx needed) [
        | true ↦ (ok, record r' { wal = commit r'.wal idx })
        | false ↦ wait_quorum r' idx needed polls
      ]

  -- The result with the index of the entry; `none` is the exception of the log. On `ok` the caller
  -- calls `on_commit` with the index. The replication threads that `write` starts act through
  -- `polls`.
  unfoldable pub write :
      Replication D
      → WalEntryType
      → Bytes
      → List (List Ack)
      → Option (WriteResult × ℕ) × Replication D
  unfolding wait_quorum
  write r type payload polls =
      let appended = append r.wal type r.term payload in
      elim appended.0 [
        | none ↦ (none, record r { wal = appended.1 })
        | some idx ↦
            let r' : Replication D = record r {
              wal = appended.1;
              ack_counts = set_acks idx 0 r.ack_counts;
            } in
            let waited = wait_quorum r' idx (majority_needed r) polls in
            (some (waited.0, idx), waited.1)
      ]

  unfoldable pub send_heartbeats : Replication D → ℕ → Replication D
  unfolding pinged_table
  send_heartbeats r now = record r {
    followers = pinged_table now r.wal.last_index r.heartbeat_interval_ms r.followers;
  }

-- A follower behind its address: an AppendEntry call returns `none` when its status is not ok, and
-- else whether it succeeded.
pub record Peer (P : Type 0) : Type 0 where
  pub append_rpc : P → AppendEntryReq → Option Bool × P
  pub commit_rpc : P → ℕ → P

abbrev succeeded : Option Bool → Bool
succeeded none = false
succeeded (some b) = b

abbrev follower_match : Table FollowerState → Bytes → ℕ
follower_match t addr = elim (find addr t) [ none ↦ 0 | some fs ↦ fs.match_index ]

module _ {D P : Type 0} ⦃db : RocksDb D⦄ ⦃peer : Peer P⦄ where
  -- One entry sent: on success the ack is recorded and the follower is told to commit it.
  unfoldable pub send_entry :
      Replication D → P → Bytes → ℕ → ℕ → WalEntry → Bool × Replication D × P
  unfolding record_ack
  send_entry r p addr now leader_term e =
      let sent = peer.append_rpc p (record {
        leader_term = leader_term;
        prev_log_index = (e.log_index + u64 - 1) % u64;
        entry = e;
      }) in
      if succeeded sent.0
      then (
        true,
        record_ack r (record { follower_addr = addr; log_index = e.log_index; at_ms = now }),
        peer.commit_rpc sent.1 e.log_index,
      )
      else (false, r, sent.1)

  -- Entries `idx` on, `rounds` of them, until one is missing or refused.
  unfoldable pub catch_up : Replication D → P → Bytes → ℕ → ℕ → ℕ → Replication D × P
  unfolding send_entry
  catch_up r p addr now idx zero = (r, p)
  catch_up r p addr now idx (suc rounds) = elim (read_entry r.wal idx) [
    | none ↦ (r, p)
    | some e ↦
        let sent = send_entry r p addr now e.term e in
        elim sent.0 [
          | true ↦ catch_up sent.1 sent.2 addr now (idx + 1) rounds
          | false ↦ (sent.1, sent.2)
        ]
  ]

  -- The body of a replication thread, run without a break.
  unfoldable pub replicate_to_follower :
      Replication D → P → Bytes → ℕ → WalEntry → Replication D × P
  unfolding catch_up
  replicate_to_follower r p addr now e =
      let sent = send_entry r p addr now e.term e in
      let from = follower_match sent.1.followers addr + 1 in
      elim sent.0 [
        | true ↦ (sent.1, sent.2)
        | false ↦ catch_up sent.1 sent.2 addr now from (e.log_index + 1 - from)
      ]
