-- ===== src/Repair/Rounds.antt =====
-- A whole round: what it does to the store, as a sequence of steps.
use final_project_nimbusvaul.Base.{
  ℕ, ◌≤◌, ◌<◌, ◌≡◌, ◌≢◌, refl, Bool, true, false, not, ◌||◌, List, [], ◌∷◌, some, Bytes, leb,
  leb-false→lt, if◌then◌else◌, Option-cases, Bool-cases, if_elim, ◌⊎◌, inl, inr, length, ◌==◌, All,
}
use final_project_nimbusvaul.Rocks.{RocksDb}
use final_project_nimbusvaul.Placement.{member}
use final_project_nimbusvaul.ChunkStore.{ChunkStore, write, remove, latest_version, list_chunk_ids}
use final_project_nimbusvaul.Replicas.{StorageNet}
use final_project_nimbusvaul.Client.{Call, broken, replied, MetaNet, ChunkInfoResp}
use final_project_nimbusvaul.Repair.{
  ReplicaRepair, accept, fetch_from_any, write_repaired, remove_unassigned, repair_chunk,
  repair_chunks, run_once,
}
use final_project_nimbusvaul.Repair.Peers.{accept_fresh, fetch_from_any-accepted}

call_cases :
    {A : Type 0} (c : Call A) → ((e : Bytes) × (c ≡ broken e)) ⊎ ((a : A) × (c ≡ replied a))
call_cases (broken e) = inl (e, refl)
call_cases (replied a) = inr (a, refl)

first-false : (a b : Bool) → (not a || b) ≡ false → (a ≡ true) × (b ≡ false)
first-false true b h = (refl, h)
first-false false b h = absurd (cc)

module _ {D M N : Type 0} ⦃r : RocksDb D⦄ (coordinator : MetaNet M) (net : StorageNet N)
    (address : Bytes) (assigned : List Bytes) where
  -- What a round may do to the store of a node at the address.
  pub data RepairStep (s : ChunkStore D) : ChunkStore D → Type 0 where
    -- An assigned chunk that lags behind the coordinator's version is written with what another
    -- node streamed, of a version not below the coordinator's.
    sync :
        (id content : Bytes) (v : ℕ) (m : M) (resp : ChunkInfoResp) (n : N) (peer : Bytes)
        → member id assigned ≡ true
        → (coordinator.chunk_info m id).0 ≡ replied resp
        → resp.ok ≡ true
        → latest_version s id < resp.meta.version
        → resp.meta.version ≤ v
        → peer ≢ address
        → accept resp.meta.version (net.fetch_rpc n peer id resp.meta.version).0 ≡ some (content, v)
        → RepairStep s (write s id v content).1
    -- A chunk that is not assigned is removed.
    drop_chunk : (id : Bytes) → member id assigned ≡ false → RepairStep s (remove s id).1

  pub data RepairSteps (s : ChunkStore D) : ChunkStore D → Type 0 where
    stay : RepairSteps s s
    later : {t u : ChunkStore D} → RepairSteps s t → RepairStep t u → RepairSteps s u

  steps_append : {s t u : ChunkStore D} → RepairSteps s t → RepairSteps t u → RepairSteps s u
  steps_append before stay = before
  steps_append before (later more last) = later (steps_append before more) last

  remove_unassigned-steps :
      (ids : List Bytes) (s : ChunkStore D) → RepairSteps s (remove_unassigned assigned s ids)
  unfolding remove_unassigned
  remove_unassigned-steps [] s = stay
  remove_unassigned-steps (id ∷ ids) s =
      let rest = remove_unassigned-steps ids (if member id assigned then s else (remove s id).1) in
      steps_append
        (if_elim (RepairSteps s) (member id assigned) _ _ (λ e. stay)
          (λ e. later stay (drop_chunk id e)))
        rest

  repair_chunk-steps :
      (own : Bytes) (s : ChunkStore D) (m : M) (n : N) (id : Bytes)
      → member id assigned ≡ true
      → RepairSteps s (repair_chunk ⦃coordinator = coordinator⦄ ⦃net = net⦄ own address s m n id).0
  unfolding repair_chunk
  repair_chunk-steps own s m n id mine = elim (call_cases (coordinator.chunk_info m id).0) [
    | inl (message, down) ↦ rw (down, repair_chunk) stay
    | inr (resp, told) ↦
        elim (Bool-cases (not resp.ok || leb resp.meta.version (latest_version s id))) [
          | inl skip ↦ rw (told, repair_chunk, skip) stay
          | inr behind ↦
              let (ok, low) = first-false resp.ok _ behind in
              let target = resp.meta.version in
              let fetched =
                fetch_from_any ⦃net = net⦄ own address n id target resp.meta.replica_set in
              elim (Option-cases fetched.0) [
                | inl nothing ↦
                    rw (told, repair_chunk, behind, nothing) (unfold write_repaired in stay)
                | inr ((content, v), got) ↦
                    let (n', peer, other, accepted) =
                      fetch_from_any-accepted ⦃net = net⦄ own address id target
                        resp.meta.replica_set n (content, v) got in
                    rw (told, repair_chunk, behind, got)
                      (unfold write_repaired in
                        later stay (
                          sync id content v m resp n' peer mine told ok (leb-false→lt _ _ low)
                            (accept_fresh target (net.fetch_rpc n' peer id target).0 (content, v)
                              accepted)
                            other accepted))
              ]
        ]
  ]

  repair_chunks-steps :
      (own : Bytes) (ids : List Bytes) (s : ChunkStore D) (m : M) (n : N)
      → All (λ id. member id assigned ≡ true) ids
      → RepairSteps s
          (repair_chunks ⦃coordinator = coordinator⦄ ⦃net = net⦄ own address s m n ids).0
  unfolding repair_chunks
  repair_chunks-steps own [] s m n mine = stay
  repair_chunks-steps own (id ∷ ids) s m n mine =
      let done = repair_chunk ⦃coordinator = coordinator⦄ ⦃net = net⦄ own address s m n id in
      steps_append (repair_chunk-steps own s m n id mine.0)
        (repair_chunks-steps own ids done.0 done.1 done.2 mine.1)

-- A round changes a node's store by steps of two kinds only: an assigned chunk whose latest
-- version is below the coordinator's is written with what another node streamed, at a version not below the
-- coordinator's; and a chunk that is not assigned is removed. The set of the assigned ids is walked in any order.
pub run_once-RepairSteps :
    {D M N : Type 0} ⦃r : RocksDb D⦄ ⦃coordinator : MetaNet M⦄ ⦃net : StorageNet N⦄
    (walk : List Bytes → List Bytes) (p : ReplicaRepair D) (m : M) (n : N)
    → let assigned = p.node.reporter.assigned_chunk_ids in
      All (λ id. member id assigned ≡ true) (walk assigned)
      → RepairSteps coordinator net p.address assigned p.node.store
          (run_once walk p m n).0.node.store
unfolding run_once
run_once-RepairSteps {D} {M} {N} ⦃r⦄ ⦃coordinator⦄ ⦃net⦄ walk p m n mine =
    let assigned = p.node.reporter.assigned_chunk_ids in
    let done = repair_chunks p.node_id p.address p.node.store m n (walk assigned) in
    if_elim
      (λ (t : ReplicaRepair D × M × N).
        RepairSteps coordinator net p.address assigned p.node.store t.0.node.store)
      (p.stopped || not p.node.reporter.has_assignment_snapshot || length assigned == 0) _ _
      (λ e. stay)
      (λ e.
        steps_append coordinator net p.address assigned
          (repair_chunks-steps coordinator net p.address assigned p.node_id (walk assigned)
            p.node.store m n mine)
          (remove_unassigned-steps coordinator net p.address assigned (list_chunk_ids done.0)
            done.0))
