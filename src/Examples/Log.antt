-- ===== src/Examples/Log.antt =====
-- The log of a leader without followers, and a follower.
use final_project_nimbusvaul.Base.{
  ℕ, zero, suc, ◌+◌, ◌<◌, ◌≤◌, ◌≡◌, refl, true, List, [], ◌∷◌, some, codes, arith, take, max,
  get_elem?, sym, ap, subst,
}
use final_project_nimbusvaul.Rocks.Memory.{Memory, memory}
use final_project_nimbusvaul.Rocks.Memory.Laws.{memory-laws}
use final_project_nimbusvaul.Base.Table.{find}
use final_project_nimbusvaul.Wal.{Wal, WalEntry, delete_chunk, append, commit, replay, open_wal}
use final_project_nimbusvaul.Wal.Codec.{IsEncodable}
use final_project_nimbusvaul.Wal.Log.{IsLog, append-IsLog, commit-IsLog, replay-committed}
use final_project_nimbusvaul.Wal.Reopen.{WalOp, appends, commits, run_ops, reopen}
use final_project_nimbusvaul.Follower.{Follower, AppendEntryReq, handle_append, handle_commit}
use final_project_nimbusvaul.Follower.Prefix.{
  IsLeaderLog, HoldsPrefix, handle_append-HoldsPrefix, handle_commit-HoldsPrefix,
}
use final_project_nimbusvaul.Replication.{
  Replication, replicate_to_follower, write, ok, unavailable, majority_needed,
}
use final_project_nimbusvaul.Replication.Linked.{linked}
use final_project_nimbusvaul.Replication.Arrival.{replicate_to_follower-arrives}
use final_project_nimbusvaul.Replication.Quorum.{polled, write_quorum}
use final_project_nimbusvaul.Examples.{empty_log, empty_log-IsLog, replication, one_poll}

abbrev entry : WalEntry
entry = record { log_index = 1; term = 1; type = delete_chunk; payload = codes "c" }

entry-IsEncodable : IsEncodable entry
entry-IsEncodable = record { term_fits = omega arith; payload_fits = omega arith; typed = tt }

append-IsLog_example :
    (suc zero ≡ empty_log.last_index + 1)
    × IsLog (append empty_log delete_chunk 1 (codes "c")).1 (entry ∷ [])
unfolding append
append-IsLog_example =
    append-IsLog memory-laws empty_log [] delete_chunk 1 (codes "c") 1 empty_log-IsLog (omega arith)
      (omega arith) (omega arith) tt refl

abbrev one_entry : Wal Memory
one_entry = (append empty_log delete_chunk 1 (codes "c")).1

one_entry-IsLog : IsLog one_entry (entry ∷ [])
unfolding append
one_entry-IsLog =
    (append-IsLog memory-laws empty_log [] delete_chunk 1 (codes "c") 1 empty_log-IsLog
      (omega arith) (omega arith) (omega arith) tt refl).1

commit-IsLog_example :
    IsLog (commit one_entry 1) (entry ∷ [])
    × ((commit one_entry 1).committed ≡ max one_entry.committed 1)
unfolding append
commit-IsLog_example =
    commit-IsLog memory-laws one_entry (entry ∷ []) 1 one_entry-IsLog (omega arith)

replay-committed_example : replay one_entry ≡ take one_entry.committed (entry ∷ [])
replay-committed_example = replay-committed one_entry (entry ∷ []) one_entry-IsLog

abbrev ops : List WalOp
ops = appends delete_chunk 1 (codes "c") ∷ commits 1 ∷ []

abbrev nothing : Memory
nothing = []

reopen_example : open_wal (run_ops (open_wal nothing) ops).store ≡ run_ops (open_wal nothing) ops
reopen_example = reopen memory-laws (λ d k v. refl) nothing ops (tt, (omega arith, tt))

write_quorum_example :
    (majority_needed replication ≤ polled 1 one_poll
      → ((write replication delete_chunk (codes "c") one_poll).0 ≡ some (ok, 1))
        × ((write replication delete_chunk (codes "c") one_poll).1.wal ≡ commit one_entry 1))
    × (polled 1 one_poll < majority_needed replication
        → ((write replication delete_chunk (codes "c") one_poll).0 ≡ some (unavailable, 1))
          × ((write replication delete_chunk (codes "c") one_poll).1.wal ≡ one_entry))
unfolding append
write_quorum_example =
    write_quorum replication delete_chunk (codes "c") one_poll 1 refl (λ e. absurd (cc))

some_back : {a b : WalEntry} → some a ≡ some b → a ≡ b
some_back e = cc

leader_log : IsLeaderLog (entry ∷ [])
leader_log = record {
  short = omega arith;
  encodable = λ i e at. encodable i e at;
  numbered = λ i e at. numbered i e at;
}
  where
    encodable : (i : ℕ) (e : WalEntry) → get_elem? (entry ∷ []) i ≡ some e → IsEncodable e
    encodable zero e at = subst IsEncodable (some_back at) entry-IsEncodable
    encodable (suc i) e at = absurd (cc)

    numbered : (i : ℕ) (e : WalEntry) → get_elem? (entry ∷ []) i ≡ some e → e.log_index ≡ suc i
    numbered zero e at = sym (ap (λ x. x.log_index) (some_back at))
    numbered (suc i) e at = absurd (cc)

abbrev follower : Follower Memory
follower = record { wal = empty_log; current_term = 0; snapshot_lsn = 0 }

abbrev request : AppendEntryReq
request = record { leader_term = 1; prev_log_index = 0; entry = entry }

holds_none : HoldsPrefix (entry ∷ []) empty_log
holds_none = record { within = omega arith; log = empty_log-IsLog }

handle_append-HoldsPrefix_example :
    HoldsPrefix (entry ∷ []) (handle_append follower request).1.wal
    × (true ≡ true → 1 ≤ (handle_append follower request).1.wal.last_index)
unfolding handle_append append
handle_append-HoldsPrefix_example =
    handle_append-HoldsPrefix memory-laws (entry ∷ []) leader_log follower request 0 true holds_none
      refl refl

handle_commit-HoldsPrefix_example : HoldsPrefix (entry ∷ []) (handle_commit follower 1).1.wal
handle_commit-HoldsPrefix_example =
    handle_commit-HoldsPrefix memory-laws (entry ∷ []) leader_log follower 1 holds_none

abbrev with_entry : Replication Memory
with_entry = record replication { wal = one_entry }

replicate_to_follower-arrives_example :
    let after = (replicate_to_follower ⦃peer = linked⦄ with_entry follower (codes "f") 5 entry).1 in
    HoldsPrefix (entry ∷ []) after.wal × (1 ≤ after.wal.last_index)
unfolding find
replicate_to_follower-arrives_example =
    replicate_to_follower-arrives (λ d k v. refl) memory-laws (entry ∷ []) leader_log 1 terms
      with_entry follower (codes "f") 5 0 entry one_entry-IsLog refl holds_none (omega arith)
      (omega arith)
  where
    terms : (i : ℕ) (e : WalEntry) → get_elem? (entry ∷ []) i ≡ some e → e.term ≡ 1
    terms zero e at = sym (ap (λ x. x.term) (some_back at))
    terms (suc i) e at = absurd (cc)
