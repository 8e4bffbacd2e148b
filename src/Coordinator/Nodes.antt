-- ===== src/Coordinator/Nodes.antt =====
-- Eviction of nodes that were not heard of.
use final_project_nimbusvaul.Base.{
  ℕ, ◌+◌, ◌-◌, ◌≤◌, ◌<◌, ◌≡◌, refl, true, false, ◌&&◌, List, [], ◌∷◌, Option, none, some, Bytes,
  arith, u64, ltb, same, ◌∙◌, ap, Bool-cases, inl, inr, All, ◌⊎◌, if_elim,
}
use final_project_nimbusvaul.Base.Table.{Table, find, values}
use final_project_nimbusvaul.Coordinator.{
  NodeEntry, Coordinator, age, alive_only, get_alive_nodes, evict_node, evict_table,
  evict_stale_nodes,
}

module _ {F : Type 0} where
  abbrev evicted : ℕ → ℕ → Option (NodeEntry F) → Option (NodeEntry F)
  evicted now timeout none = none
  evicted now timeout (some n) = some (evict_node now timeout n)

  find-evict_table :
      (now timeout : ℕ) (id : Bytes) (t : Table (NodeEntry F))
      → find id (evict_table now timeout t) ≡ evicted now timeout (find id t)
  unfolding find evict_table
  find-evict_table now timeout id [] = refl
  find-evict_table now timeout id ((k, n) ∷ t) = elim (Bool-cases (same k id)) [
    | inl e ↦ rw e
    | inr e ↦ rw e (find-evict_table now timeout id t)
  ]

  -- Alive and heard of within the timeout.
  abbrev pub IsHeard : ℕ → ℕ → NodeEntry F → Type 0
  IsHeard now timeout n =
      (n.alive ≡ true) × (n.last_seen_ms ≤ now) × (now - n.last_seen_ms ≤ timeout)

  IsHeard-or_gone :
      (now timeout : ℕ) (n : NodeEntry F)
      → now < u64
      → n.last_seen_ms ≤ now
      → ((evict_node now timeout n).alive ≡ false) ⊎ IsHeard now timeout (evict_node now timeout n)
  unfolding evict_node
  IsHeard-or_gone now timeout n h seen =
      if_elim (λ m. (m.alive ≡ false) ⊎ IsHeard now timeout m) (n.alive && ltb timeout (age now n))
        (record n { alive = false }) n (λ _. inl refl)
        (λ e. elim (Bool-cases n.alive) [
          | inr dead ↦ inl dead
          | inl live ↦ inr (live, seen, ground arith)
        ])

  alive_only_cons :
      (P : NodeEntry F → Type 0) (n : NodeEntry F) (ns : List (NodeEntry F))
      → (n.alive ≡ false) ⊎ P n
      → All P (alive_only ns)
      → All P (alive_only (n ∷ ns))
  unfolding alive_only
  alive_only_cons P n ns (inl dead) h = rw dead h
  alive_only_cons P n ns (inr p) h =
      if_elim (All P) n.alive (n ∷ alive_only ns) (alive_only ns) (λ _. (p, h)) (λ _. h)

  alive-evict_table :
      (now timeout : ℕ) (t : Table (NodeEntry F))
      → now < u64
      → All (λ n. n.last_seen_ms ≤ now) (values t)
      → All (IsHeard now timeout) (alive_only (values (evict_table now timeout t)))
  unfolding values evict_table
  alive-evict_table now timeout [] h s = unfold alive_only in tt
  alive-evict_table now timeout ((k, n) ∷ t) h s =
      alive_only_cons (IsHeard now timeout) (evict_node now timeout n)
        (values (evict_table now timeout t)) (IsHeard-or_gone now timeout n h s.0)
        (alive-evict_table now timeout t h s.1)

  -- The nodes that placement sees after an eviction were heard of within the timeout, if no node
  -- was last seen after the present time.
  pub alive-evict_stale_nodes :
      (c : Coordinator F) (now timeout : ℕ)
      → now < u64
      → All (λ n. n.last_seen_ms ≤ now) (values c.node_table)
      → All (IsHeard now timeout) (get_alive_nodes (evict_stale_nodes c now timeout))
  unfolding get_alive_nodes evict_stale_nodes
  alive-evict_stale_nodes c now timeout h seen = alive-evict_table now timeout c.node_table h seen

  -- A node last seen after the present time is declared dead: the unsigned difference wraps.
  pub evicts_the_future :
      (c : Coordinator F) (now timeout : ℕ) (id : Bytes) (n : NodeEntry F)
      → find id c.node_table ≡ some n
      → n.last_seen_ms < u64
      → now < n.last_seen_ms
      → n.last_seen_ms + timeout < now + u64
      → find id (evict_stale_nodes c now timeout).node_table ≡ some (record n { alive = false })
  unfolding evict_stale_nodes evict_node
  evicts_the_future c now timeout id n at fits later room =
      find-evict_table now timeout id c.node_table ∙ ap (evicted now timeout) at ∙ dead
    where
      dead : some (evict_node now timeout n) ≡ some (record n { alive = false })
      dead =
          if_elim (λ m. some m ≡ some (record n { alive = false }))
            (n.alive && ltb timeout (age now n)) (record n { alive = false }) n (λ _. refl)
            (λ e.
              let gone : n.alive ≡ false = ground arith in λ i. some (record n { alive = gone i }))
