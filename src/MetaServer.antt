-- ===== src/MetaServer.antt =====
-- FetchLogEntries of src/meta/meta_rpc.cpp, `bootstrap_follower_from_leader` and the policy round of
-- src/bin/meta_server.cpp.
use final_project_nimbusvaul.Base.{
  ℕ, zero, suc, ◌+◌, ◌-◌, ◌%◌, Bool, true, false, not, ◌&&◌, List, [], ◌∷◌, Option, none, some,
  ◌||◌, u64, ◌==◌, if◌then◌else◌, ℤ, pos, negsuc,
}
use final_project_nimbusvaul.Rocks.{RocksDb}
use final_project_nimbusvaul.Float.{Floats}
use final_project_nimbusvaul.Wal.{WalEntry, Wal, read_entry}
use final_project_nimbusvaul.Coordinator.{ChunkEntry, NodeEntry, Coordinator}
use final_project_nimbusvaul.Policy.{AdaptivePolicy, evaluate}
use final_project_nimbusvaul.Placement.{PlacementConfig}
use final_project_nimbusvaul.Follower.{Follower, AppendEntryReq, handle_append, handle_commit}
use final_project_nimbusvaul.Follower
use final_project_nimbusvaul.Stream.{Piece, assemble}
use final_project_nimbusvaul.Replicas.{StorageNet}
use final_project_nimbusvaul.Server.{on_commit}
use final_project_nimbusvaul.Snapshot.{install_snapshot}
use final_project_nimbusvaul.Reconfig.{Cluster, Waits, reconfig}

module _ {D : Type 0} ⦃db : RocksDb D⦄ where
  -- The entries from `idx` on, `rounds` of them, up to the first that is missing.
  unfoldable pub fetch_loop : Wal D → ℕ → ℕ → List WalEntry
  fetch_loop w idx zero = []
  fetch_loop w idx (suc rounds) = elim (read_entry w idx) [
    | none ↦ []
    | some e ↦ e ∷ fetch_loop w (idx + 1) rounds
  ]

  unfoldable pub fetch_log_entries : Wal D → ℕ → List WalEntry
  unfolding fetch_loop
  fetch_log_entries w from = fetch_loop w from (w.last_index + 1 - from)

unfoldable pub no_pieces : List Piece → Bool
no_pieces [] = true
no_pieces (p ∷ ps) = false

-- `==` on `int`.
unfoldable pub same_int : ℤ → ℤ → Bool
same_int (pos m) (pos n) = m == n
same_int (negsuc m) (negsuc n) = m == n
same_int _ _ = false

-- A follower with its coordinator, which its `on_commit` callback changes.
pub record FollowerServer (F D : Type 0) : Type 0 where
  pub follower : Follower D
  pub coord : Coordinator F

module _ {F D : Type 0} ⦃fl : Floats F⦄ ⦃db : RocksDb D⦄ where
  -- `follower.handle_commit` with the callback; `none` is an exception.
  unfoldable pub commit_entry : FollowerServer F D → ℕ → ℕ → Option (FollowerServer F D)
  unfolding on_commit
  commit_entry s now idx =
      let handled = handle_commit s.follower idx in
      elim handled.0 [
        | none ↦ some (record s { follower = handled.1 })
        | some i ↦ elim (on_commit handled.1.wal s.coord now i) [
          | none ↦ none
          | some c ↦ some (record { follower = handled.1; coord = c })
        ]
      ]

  -- The loop over the entries that the leader sends.
  unfoldable pub catch_up_log :
      FollowerServer F D → ℕ → ℕ → List WalEntry → Option (FollowerServer F D)
  unfolding commit_entry
  catch_up_log s now prev_log_index [] = some s
  catch_up_log s now prev_log_index (e ∷ es) =
      let handled =
        handle_append s.follower
          (record { leader_term = e.term; prev_log_index = prev_log_index; entry = e }) in
      let s' : FollowerServer F D = record s { follower = handled.1 } in
      elim handled.0 [
        | none ↦ none
        | some false ↦ some s'
        | some true ↦ elim (commit_entry s' now e.log_index) [
          | none ↦ none
          | some s2 ↦ catch_up_log s2 now e.log_index es
        ]
      ]

-- What a follower gets of the leader when it starts: the snapshot's messages, whether that call
-- was ok, and the answer to FetchLogEntries from an index on, with whether that call was ok.
pub record LeaderAnswers : Type 0 where
  pub snapshot : List Piece
  pub snapshot_ok : Bool
  pub log : ℕ → List WalEntry × Bool

module _ {F D : Type 0} ⦃fl : Floats F⦄ ⦃db : RocksDb D⦄ where
  unfoldable pub replay_answers :
      FollowerServer F D → ℕ → ℕ → List WalEntry × Bool → Option (Bool × FollowerServer F D)
  unfolding catch_up_log
  replay_answers s now lsn (es, log_ok) = elim (catch_up_log s now lsn es) [
    | none ↦ none
    | some s' ↦ some (log_ok, s')
  ]

  unfoldable pub bootstrap_with :
      FollowerServer F D
      → ℕ
      → Option (ℕ × Coordinator F)
      → LeaderAnswers
      → Option (Bool × FollowerServer F D)
  unfolding replay_answers
  bootstrap_with s now none a = some (false, s)
  bootstrap_with s now (some (lsn, c)) a =
      replay_answers (record { follower = Follower.install_snapshot s.follower lsn; coord = c }) now
        lsn (a.log ((lsn + 1) % u64))

  -- `bootstrap_follower_from_leader` with a leader to ask; `none` is an exception behind the
  -- snapshot, which nothing catches.
  unfoldable pub bootstrap_follower_from_leader :
      FollowerServer F D → ℕ → LeaderAnswers → Option (Bool × FollowerServer F D)
  unfolding bootstrap_with
  bootstrap_follower_from_leader s now a =
      if not a.snapshot_ok || no_pieces a.snapshot
      then some (false, s)
      else bootstrap_with s now (install_snapshot s.coord (assemble a.snapshot)) a

module _ {F D N : Type 0} ⦃fl : Floats F⦄ ⦃db : RocksDb D⦄ ⦃net : StorageNet N⦄ where
  -- One chunk of the policy round; the answer of `reconfig` is not read, and `none` is an exception.
  unfoldable pub policy_chunk :
      Cluster F D N
      → AdaptivePolicy F
      → Waits
      → PlacementConfig F
      → (List (NodeEntry F) → List (NodeEntry F))
      → ChunkEntry
      → Option (Cluster F D N) × AdaptivePolicy F
  policy_chunk s p w cfg shuffle c =
      let evaluated = evaluate p c.chunk_id w.now in
      let dec = evaluated.1 in
      elim (dec.changed && not (same_int dec.new_rf c.replication_factor)) [
        | false ↦ (some s, evaluated.0)
        | true ↦
            let done = reconfig s w cfg shuffle c.chunk_id dec.new_rf [] [] in
            (elim done.0 [ none ↦ none | some _ ↦ some done.1 ], evaluated.0)
      ]

  unfoldable pub policy_round :
      Cluster F D N
      → AdaptivePolicy F
      → Waits
      → PlacementConfig F
      → (List (NodeEntry F) → List (NodeEntry F))
      → List ChunkEntry
      → Option (Cluster F D N) × AdaptivePolicy F
  unfolding policy_chunk
  policy_round s p w cfg shuffle [] = (some s, p)
  policy_round s p w cfg shuffle (c ∷ cs) =
      let one = policy_chunk s p w cfg shuffle c in
      elim one.0 [ none ↦ (none, one.1) | some s' ↦ policy_round s' one.1 w cfg shuffle cs ]
