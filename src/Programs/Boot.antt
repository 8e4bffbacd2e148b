-- ===== src/Programs/Boot.antt =====
-- How src/bin/meta_server.cpp puts a server together, and its heartbeat thread.
use final_project_nimbusvaul.Base.{
  ℕ, ◌+◌, ◌*◌, ◌%◌, List, [], ◌∷◌, Option, none, some, Bytes, codes, same, leb, if◌then◌else◌, u32,
}
use final_project_nimbusvaul.Rocks.{RocksDb}
use final_project_nimbusvaul.Float.{Floats}
use final_project_nimbusvaul.Wal.{Wal}
use final_project_nimbusvaul.Coordinator.{Coordinator, NodeEntry, get_chunks, evict_stale_nodes}
use final_project_nimbusvaul.Policy.{AdaptivePolicy, default_config}
use final_project_nimbusvaul.Placement.{PlacementConfig}
use final_project_nimbusvaul.Replication.{Replication, add_follower, send_heartbeats}
use final_project_nimbusvaul.Follower.{Follower, new_follower}
use final_project_nimbusvaul.Recovery.{Deletion, cleanup_uncommitted_puts}
use final_project_nimbusvaul.Replicas.{StorageNet, delete_chunk_from_replica}
use final_project_nimbusvaul.Server.{start}
use final_project_nimbusvaul.Reconfig.{Cluster, Waits}
use final_project_nimbusvaul.MetaServer.{policy_round}
use final_project_nimbusvaul.Programs.{NodeConfig}

-- The parts of a server that is up: a leader's, with the policy in adaptive mode, or a follower's.
pub data Role (F D : Type 0) : Type 0 where
  leads : Replication D → Option (AdaptivePolicy F) → Role F D
  follows : Follower D → Role F D

unfoldable pub add_peers :
    {D : Type 0} ⦃db : RocksDb D⦄ → Replication D → ℕ → List Bytes → Replication D
unfolding add_follower
add_peers r now [] = r
add_peers r now (peer ∷ peers) = add_peers (add_follower r peer now) now peers

module _ {N : Type 0} ⦃net : StorageNet N⦄ where
  unfoldable pub run_deletions : N → List Deletion → N
  unfolding delete_chunk_from_replica
  run_deletions n [] = n
  run_deletions n (d ∷ ds) = run_deletions (delete_chunk_from_replica n d.address d.chunk_id) ds

module _ {F : Type 0} ⦃fl : Floats F⦄ where
  unfoldable pub policy_of : NodeConfig → Option (AdaptivePolicy F)
  policy_of cfg =
      if same cfg.mode (codes "adaptive")
      then some (record { cfg = default_config; state = [] })
      else none

  unfoldable pub leader_of : {D : Type 0} ⦃db : RocksDb D⦄ → NodeConfig → Wal D → ℕ → Role F D
  unfolding add_peers policy_of
  leader_of cfg w now =
      leads
        (add_peers
          (record {
            wal = w;
            heartbeat_interval_ms = cfg.heartbeat_interval_ms;
            term = 1;
            followers = [];
            ack_counts = [];
          })
          now cfg.peers)
        (policy_of cfg)

  module _ {D N : Type 0} ⦃db : RocksDb D⦄ ⦃net : StorageNet N⦄ where
    -- The coordinator, the role, and the network after the clean-up; `none` is an exception.
    unfoldable pub boot : NodeConfig → Wal D → N → ℕ → Option (Coordinator F × Role F D × N)
    unfolding start leader_of run_deletions
    boot cfg w n now = elim (start w now) [
      | none ↦ none
      | some c ↦
          if same cfg.role (codes "leader")
          then some (c, leader_of cfg w now, run_deletions n (cleanup_uncommitted_puts w c))
          else some (c, follows (new_follower w), n)
    ]

    -- One round of the heartbeat thread of a leader, and the number of rounds since the policy ran
    -- last; `none` is an exception. Without a policy the count stands still.
    unfoldable pub heartbeat_round :
        NodeConfig
        → Cluster F D N
        → Option (AdaptivePolicy F)
        → ℕ
        → Waits
        → PlacementConfig F
        → (List (NodeEntry F) → List (NodeEntry F))
        → Option (Cluster F D N) × Option (AdaptivePolicy F) × ℕ
    unfolding policy_round
    heartbeat_round cfg s policy tick w pcfg shuffle =
        let pinged : Cluster F D N = record s {
          leader = record {
            coord = evict_stale_nodes s.leader.coord w.now ((cfg.follower_timeout_ms * 5) % u32);
            repl = send_heartbeats s.leader.repl w.now;
          };
        } in
        elim policy [
          | none ↦ (some pinged, none, tick)
          | some p ↦
              let round = policy_round pinged p w pcfg shuffle (get_chunks pinged.leader.coord) in
              if leb 10 (tick + 1)
              then (round.0, some round.1, 0)
              else (some pinged, some p, tick + 1)
        ]
