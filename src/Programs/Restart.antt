-- ===== src/Programs/Restart.antt =====
-- What a metadata server has after a start on an existing log.
use final_project_nimbusvaul.Base.{
  ℕ, ◌%◌, ◌+◌, Bool, ◌≡◌, refl, ap, ◌∙◌, true, false, Option, none, some, List, [], ◌∷◌, ◌++◌,
  Bytes, codes, same, take, drop, if◌then◌else◌, Bool-cases, inl, inr, u64, same_iff,
}
use final_project_nimbusvaul.Base.Table.{find, find-insert}
use final_project_nimbusvaul.Rocks.{RocksDb}
use final_project_nimbusvaul.Float.{Floats}
use final_project_nimbusvaul.Placement.{member}
use final_project_nimbusvaul.Wal.{Wal, WalEntry}
use final_project_nimbusvaul.Wal.Log.{IsLog, replay-committed}
use final_project_nimbusvaul.Coordinator.{Coordinator, NodeEntry, fresh, get_alive_nodes}
use final_project_nimbusvaul.Apply.{apply_entries}
use final_project_nimbusvaul.Replication.{Replication, FollowerState, healthy, add_follower}
use final_project_nimbusvaul.Follower.{new_follower}
use final_project_nimbusvaul.Recovery.{Deletion, deletions, cleanup_uncommitted_puts}
use final_project_nimbusvaul.Recovery.Covers.{cleanup-uncommitted}
use final_project_nimbusvaul.Recovery.Undo.{
  Behind, put_of, other, AreBehind, taken_back, cleanup_entries-taken_back,
}
use final_project_nimbusvaul.Replicas.{StorageNet, resolve_address, delete_chunk_from_replica}
use final_project_nimbusvaul.Server.{start}
use final_project_nimbusvaul.Programs.{NodeConfig}
use final_project_nimbusvaul.Programs.Boot.{
  Role, leads, follows, add_peers, policy_of, boot, leader_of, run_deletions,
}

module _ {N : Type 0} ⦃net : StorageNet N⦄ where
  run_deletions-append :
      (n : N) (ds more : List Deletion)
      → run_deletions n (ds ++ more) ≡ run_deletions (run_deletions n ds) more
  unfolding run_deletions
  run_deletions-append n [] more = refl
  run_deletions-append n (d ∷ ds) more =
      run_deletions-append (delete_chunk_from_replica n d.address d.chunk_id) ds more

  module _ {F : Type 0} where
    -- One replica after the other is asked to delete the chunk, with all its versions.
    unfoldable pub undo_put : N → List (NodeEntry F) → Bytes → List Bytes → N
    undo_put n alive id [] = n
    undo_put n alive id (r ∷ rs) =
        undo_put (delete_chunk_from_replica n (resolve_address r alive) id) alive id rs

    unfoldable pub undo_all : N → List (NodeEntry F) → List Behind → N
    undo_all n alive [] = n
    undo_all n alive (put_of id size rf version replicas ∷ bs) =
        undo_all (undo_put n alive id replicas) alive bs
    undo_all n alive (other ∷ bs) = undo_all n alive bs

    run-deletions :
        (n : N) (alive : List (NodeEntry F)) (id : Bytes) (rs : List Bytes)
        → run_deletions n (deletions alive id rs) ≡ undo_put n alive id rs
    unfolding run_deletions deletions undo_put
    run-deletions n alive id [] = refl
    run-deletions n alive id (r ∷ rs) =
        run-deletions (delete_chunk_from_replica n (resolve_address r alive) id) alive id rs

    run-taken_back :
        (n : N) (alive : List (NodeEntry F)) (bs : List Behind)
        → run_deletions n (taken_back alive bs) ≡ undo_all n alive bs
    unfolding taken_back undo_all run_deletions
    run-taken_back n alive [] = refl
    run-taken_back n alive (put_of id size rf version replicas ∷ bs) =
        run_deletions-append n (deletions alive id replicas) (taken_back alive bs)
        ∙ ap (λ k. run_deletions k (taken_back alive bs)) (run-deletions n alive id replicas)
        ∙ run-taken_back (undo_put n alive id replicas) alive bs
    run-taken_back n alive (other ∷ bs) = run-taken_back n alive bs

module _ {D : Type 0} ⦃db : RocksDb D⦄ where
  -- A follower as the leader knows it at its start.
  abbrev pub new_peer : Wal D → ℕ → Bytes → FollowerState
  new_peer w now address = record {
    address = address;
    match_index = 0;
    next_index = (w.last_index + 1) % u64;
    status = healthy;
    last_ack_ms = now;
    missed_pings = 0;
  }

  -- Adding peers changes the table of followers only, which then has a new one for each of them.
  add_peers-followers :
      (r : Replication D) (now : ℕ) (peers : List Bytes) (a : Bytes)
      → find a (add_peers r now peers).followers
        ≡ (if member a peers then some (new_peer r.wal now a) else find a r.followers)
  unfolding add_peers add_follower member
  add_peers-followers r now [] a = refl
  add_peers-followers r now (p ∷ peers) a =
      add_peers-followers (add_follower r p now) now peers a
      ∙ (let found = find-insert p a (new_peer r.wal now p) r.followers in
          elim (Bool-cases (same p a)) [
            | inl e ↦
                let added : find a (add_follower r p now).followers ≡ some (new_peer r.wal now a) =
                  found ∙ rw e (ap (λ q. some (new_peer r.wal now q)) ((same_iff p a).0 e)) in
                rw (added, e) (either (member a peers) (some (new_peer r.wal now a)))
            | inr e ↦
                let kept : find a (add_follower r p now).followers ≡ find a r.followers =
                  found ∙ rw e refl in
                rw (kept, e) refl
          ])
    where
      either : (b : Bool) (x : Option FollowerState) → (if b then x else x) ≡ x
      either true x = refl
      either false x = refl

  add_peers-rest :
      (r : Replication D) (now : ℕ) (peers : List Bytes)
      → add_peers r now peers ≡ record r { followers = (add_peers r now peers).followers }
  unfolding add_peers add_follower
  add_peers-rest r now [] = refl
  add_peers-rest r now (p ∷ peers) = add_peers-rest (add_follower r p now) now peers

module _ {F D N : Type 0} ⦃fl : Floats F⦄ ⦃db : RocksDb D⦄ ⦃net : StorageNet N⦄ where
  -- What a server is after its start, with the network it leaves: a leader's log is the one it
  -- started on, in term 1 and with no acks, it knows exactly its peers as followers, and it has taken
  -- back the puts behind the watermark; a follower's log is the one it started on, in term 0, and the
  -- network is untouched.
  abbrev pub IsStarted :
      NodeConfig → Wal D → ℕ → List (NodeEntry F) → List Behind → N → Role F D → N → Type 0
  IsStarted cfg w now alive behind n (leads r policy) n' =
      (same cfg.role (codes "leader") ≡ true)
      × (r.wal ≡ w)
      × (r.term ≡ 1)
      × (r.ack_counts ≡ [])
      × (policy ≡ policy_of cfg)
      × ((a : Bytes)
          → find a r.followers ≡ (if member a cfg.peers then some (new_peer w now a) else none))
      × (n' ≡ undo_all n alive behind)
  IsStarted cfg w now alive behind n (follows f) n' =
      (same cfg.role (codes "leader") ≡ false)
      × (f.wal ≡ w)
      × (f.current_term ≡ 0)
      × (f.snapshot_lsn ≡ 0)
      × (n' ≡ n)

  -- On a log whose committed entries can be applied, and behind them only entries that are no puts, or
  -- puts of a chunk and replicas that a payload can hold: a server starts with the coordinator that
  -- the committed entries give, applied in order to an empty one. A leader has its log, its peers as
  -- followers, and has asked each replica of each put behind the committed entries, in order, to
  -- delete the chunk, and nothing else; a deletion names the chunk only, and so takes all its
  -- versions, committed ones too. Any other role is a follower on its log, and deletes nothing.
  pub boot-committed :
      (cfg : NodeConfig) (w : Wal D) (es : List WalEntry) (n : N) (now : ℕ) (c : Coordinator F)
      (behind : List Behind)
      → IsLog w es
      → apply_entries fresh now (take w.committed es) ≡ some c
      → AreBehind behind (drop w.committed es)
      → (role : Role F D) × (n' : N) × (boot cfg w n now ≡ some (c, role, n'))
        × IsStarted cfg w now (get_alive_nodes c) behind n role n'
  unfolding boot start leader_of find
  boot-committed cfg w es n now c behind l applied shaped =
      let begun : start w now ≡ some c =
        ap (apply_entries fresh now) (replay-committed w es l) ∙ applied in
      let gone : run_deletions n (cleanup_uncommitted_puts w c)
          ≡ undo_all n (get_alive_nodes c) behind =
        ap (run_deletions n) (
          cleanup-uncommitted w es c l
          ∙ cleanup_entries-taken_back (get_alive_nodes c) behind (drop w.committed es) shaped)
        ∙ run-taken_back n (get_alive_nodes c) behind in
      elim (Bool-cases (same cfg.role (codes "leader"))) [
        | inl e ↦
            let r0 : Replication D = record {
              wal = w;
              heartbeat_interval_ms = cfg.heartbeat_interval_ms;
              term = 1;
              followers = [];
              ack_counts = [];
            } in
            let r = add_peers r0 now cfg.peers in
            let kept = add_peers-rest r0 now cfg.peers in
            (
              leads r (policy_of cfg),
              undo_all n (get_alive_nodes c) behind,
              rw (begun, boot, e, gone) refl,
              (
                e,
                ap (λ (x : Replication D). x.wal) kept,
                ap (λ (x : Replication D). x.term) kept,
                ap (λ (x : Replication D). x.ack_counts) kept,
                refl,
                (λ a. add_peers-followers r0 now cfg.peers a),
                refl,
              ),
            )
        | inr e ↦
            (follows (new_follower w), n, rw (begun, boot, e) refl, (e, refl, refl, refl, refl))
      ]
