-- ===== src/Repair/Peers.antt =====
-- What a storage node takes from its peers.
use final_project_nimbusvaul.Base.{
  ℕ, ◌≤◌, ◌≡◌, ◌≢◌, refl, ap, sym, ◌∙◌, Bool, true, false, not, ◌||◌, List, [], ◌∷◌, ◌++◌, none,
  some, Bytes, same, same_iff, ltb, ltb-false→le, arith, if◌then◌else◌, Option-cases, Bool-cases,
  if_elim, inl, inr, append_assoc, append-nil, All, le→ltb-false, false≢true,
}
use final_project_nimbusvaul.Stream.{Piece, stream, pieces, assemble}
use final_project_nimbusvaul.Stream.Laws.{IsPiece, assemble-stream, stream_bounded}
use final_project_nimbusvaul.StorageRpc.{messages}
use final_project_nimbusvaul.Replicas.{StorageNet, is_empty}
use final_project_nimbusvaul.Repair.{
  Streamed, read_piece, read_pieces, nothing_read, accept, parse_replica_endpoint, fetch_from_peer,
  peer_of, fetch_from_any,
}

-- Every message carries the version.
abbrev pub Stamped : ℕ → List Piece → Type 0
Stamped v ps = All (λ p. p.stamp ≡ v) ps

read_pieces-assemble :
    (ps : List Piece) (f : Streamed) → (read_pieces f ps).content ≡ f.content ++ assemble ps
unfolding read_pieces assemble read_piece
read_pieces-assemble [] f = sym (append-nil f.content)
read_pieces-assemble (p ∷ ps) f = elim (Bool-cases p.is_last) [
  | inl e ↦ rw (e, read_pieces, assemble) refl
  | inr e ↦
      rw (e, read_pieces, assemble)
        (read_pieces-assemble ps (read_piece f p) ∙ append_assoc f.content p.content (assemble ps))
]

read_piece-version :
    (v : ℕ) (p : Piece) (f : Streamed)
    → p.stamp ≡ v
    → f.streamed_version ≤ v
    → (read_piece f p).streamed_version ≡ v
unfolding read_piece
read_piece-version v p f stamped low = ground (arith, stamped, low)

read_pieces-version :
    (v : ℕ) (p : Piece) (ps : List Piece) (f : Streamed)
    → Stamped v (p ∷ ps)
    → f.streamed_version ≤ v
    → (read_pieces f (p ∷ ps)).streamed_version ≡ v
unfolding read_pieces
read_pieces-version v p [] f stamped low =
    let next = read_piece-version v p f stamped.0 low in
    if_elim (λ (g : Streamed). g.streamed_version ≡ v) p.is_last _ _ (λ e. next) (λ e. next)
read_pieces-version v p (q ∷ ps) f stamped low =
    let next = read_piece-version v p f stamped.0 low in
    if_elim (λ (g : Streamed). g.streamed_version ≡ v) p.is_last _ _ (λ e. next)
      (λ e. read_pieces-version v q ps (read_piece f p) stamped.1 (omega (arith, next)))

read_pieces-received :
    (p : Piece) (ps : List Piece) (f : Streamed) → (read_pieces f (p ∷ ps)).received ≡ true
unfolding read_pieces
read_pieces-received p [] f =
    unfold read_piece in
    if_elim (λ (g : Streamed). g.received ≡ true) p.is_last _ _ (λ e. refl) (λ e. refl)
read_pieces-received p (q ∷ ps) f =
    if_elim (λ (g : Streamed). g.received ≡ true) p.is_last _ _ (λ e. unfold read_piece in refl)
      (λ e. read_pieces-received q ps (read_piece f p))

-- A stream that ended well, of at least one message, each of the version: its data put together is
-- taken, unless the version is below the one asked for.
pub accept-Stamped :
    (target v : ℕ) (p : Piece) (ps : List Piece)
    → Stamped v (p ∷ ps)
    → accept target (p ∷ ps, true) ≡ (if ltb v target then none else some (assemble (p ∷ ps), v))
unfolding accept
accept-Stamped target v p ps stamped =
    rw
      (
        read_pieces-received p ps nothing_read,
        read_pieces-version v p ps nothing_read stamped (omega arith),
        read_pieces-assemble (p ∷ ps) nothing_read,
      )
      refl

Stamped-stream : (v : ℕ) (content : Bytes) → Stamped v (stream v content)
Stamped-stream v content = stamps (stream v content) (stream_bounded v content)
  where
    stamps : (ps : List Piece) → All (IsPiece v) ps → Stamped v ps
    stamps [] h = tt
    stamps (p ∷ ps) h = (h.0.2, stamps ps h.1)

-- The node takes the data and the version that FetchChunk of a peer streams, if the version is not
-- below the one it asked for.
pub accept-messages :
    (target v : ℕ) (content : Bytes)
    → target ≤ v
    → accept target (messages v content, true) ≡ some (content, v)
accept-messages target v [] low =
    unfold messages in
    (accept-Stamped target v _ [] (refl, tt)
      ∙ rw (le→ltb-false v target low) (unfold assemble in refl))
accept-messages target v (b ∷ content) low =
    unfold messages stream pieces in
    (accept-Stamped target v _ _ (unfold stream pieces in Stamped-stream v (b ∷ content))
      ∙ rw (le→ltb-false v target low)
          (ap (λ s. some (s, v)) (unfold stream pieces in assemble-stream v (b ∷ content))))

some_eq : {A : Type 0} {x y : A} → some x ≡ some y → x ≡ y
some_eq e = cc

last-false : (a b c : Bool) → (a || b || c) ≡ false → c ≡ false
last-false a b c h = ground (arith, h)

-- What is taken has a version that is not below the one asked for.
pub accept_fresh :
    (target : ℕ) (r : List Piece × Bool) (found : Bytes × ℕ)
    → accept target r ≡ some found
    → target ≤ found.1
unfolding accept
accept_fresh target (ps, finished) found e =
    let f = read_pieces nothing_read ps in
    let test = not finished || not f.received || ltb f.streamed_version target in
    elim (Bool-cases test) [
      | inl rejected ↦
          let refused : accept target (ps, finished) ≡ none = rw (rejected, accept) refl in
          absurd (cc)
      | inr passed ↦
          let taken : accept target (ps, finished) ≡ some (f.content, f.streamed_version) =
            rw (passed, accept) refl in
          let found_is : (f.content, f.streamed_version) ≡ found = some_eq (sym taken ∙ e) in
          omega (
            arith,
            ap (λ (q : Bytes × ℕ). q.1) found_is,
            ltb-false→le f.streamed_version target
                (last-false (not finished) (not f.received) _ passed),
          )
    ]

peer_of-other :
    (node_id address replica addr : Bytes)
    → peer_of node_id address replica ≡ some addr
    → addr ≢ address
unfolding peer_of
peer_of-other node_id address replica addr at e =
    elim (Option-cases (parse_replica_endpoint replica)) [
      | inl bad ↦
          let skipped : peer_of node_id address replica ≡ none = rw (bad, peer_of) refl in
          absurd (cc)
      | inr ((peer_id, peer_addr), parsed) ↦
          elim (Bool-cases (is_empty peer_addr || same peer_id node_id || same peer_addr address)) [
            | inl skip ↦
                let skipped : peer_of node_id address replica ≡ none =
                  rw (parsed, peer_of, skip) refl in
                absurd (cc)
            | inr asked ↦
                let taken : peer_of node_id address replica ≡ some peer_addr =
                  rw (parsed, peer_of, asked) refl in
                false≢true (
                  sym (last-false (is_empty peer_addr) (same peer_id node_id) _ asked)
                  ∙ (same_iff peer_addr address).1 (some_eq (sym taken ∙ at) ∙ e))
          ]
    ]

module _ {N : Type 0} ⦃net : StorageNet N⦄ where
  -- What is fetched was accepted from a peer that is asked.
  pub fetch_from_any-accepted :
      (node_id address chunk_id : Bytes) (target : ℕ) (replicas : List Bytes) (n : N)
      (found : Bytes × ℕ)
      → (fetch_from_any node_id address n chunk_id target replicas).0 ≡ some found
      → (n' : N) × (addr : Bytes) × (addr ≢ address)
        × (accept target (net.fetch_rpc n' addr chunk_id target).0 ≡ some found)
  unfolding fetch_from_any fetch_from_peer
  fetch_from_any-accepted node_id address chunk_id target [] n found got = absurd (cc)
  fetch_from_any-accepted node_id address chunk_id target (replica ∷ replicas) n found got =
      elim (Option-cases (peer_of node_id address replica)) [
        | inl skip ↦
            let next : (fetch_from_any node_id address n chunk_id target (replica ∷ replicas)).0
                ≡ (fetch_from_any node_id address n chunk_id target replicas).0 =
              rw (skip, fetch_from_any) refl in
            fetch_from_any-accepted node_id address chunk_id target replicas n found
              (sym next ∙ got)
        | inr (addr, at) ↦
            let fetched = fetch_from_peer n addr chunk_id target in
            elim (Option-cases fetched.0) [
              | inl nothing ↦
                  let next : (fetch_from_any node_id address n chunk_id target
                        (replica ∷ replicas)).0
                      ≡ (fetch_from_any node_id address fetched.1 chunk_id target replicas).0 =
                    rw (at, fetch_from_any, nothing) refl in
                  fetch_from_any-accepted node_id address chunk_id target replicas fetched.1 found
                    (sym next ∙ got)
              | inr (other, took) ↦
                  let first : (fetch_from_any node_id address n chunk_id target
                        (replica ∷ replicas)).0
                      ≡ fetched.0 =
                    rw (at, fetch_from_any, took) took in
                  (n, addr, peer_of-other node_id address replica addr at, sym first ∙ got)
            ]
      ]

  -- Something is fetched if one of the peers that are asked has it, whatever was asked before.
  pub fetch_from_any-finds :
      (node_id address chunk_id : Bytes) (target : ℕ) (before after : List Bytes)
      (replica addr : Bytes)
      → peer_of node_id address replica ≡ some addr
      → ((n : N) → accept target (net.fetch_rpc n addr chunk_id target).0 ≢ none)
      → (n : N)
      → (fetch_from_any node_id address n chunk_id target (before ++ replica ∷ after)).0 ≢ none
  unfolding fetch_from_any
  fetch_from_any-finds node_id address chunk_id target [] after replica addr asked has n =
      elim (Option-cases (fetch_from_peer n addr chunk_id target).0) [
        | inl nothing ↦ absurd (has n (unfold fetch_from_peer in nothing))
        | inr (found, took) ↦ rw (asked, fetch_from_any, took) (λ e. absurd (cc (took, e)))
      ]
  fetch_from_any-finds node_id address chunk_id target (other ∷ before) after replica addr asked has
        n =
      let later =
        fetch_from_any-finds node_id address chunk_id target before after replica addr asked has in
      elim (Option-cases (peer_of node_id address other)) [
        | inl skip ↦ rw (skip, fetch_from_any) (later n)
        | inr (peer, at) ↦ elim (Option-cases (fetch_from_peer n peer chunk_id target).0) [
          | inl nothing ↦
              rw (at, fetch_from_any, nothing) (later (fetch_from_peer n peer chunk_id target).1)
          | inr (found, took) ↦ rw (at, fetch_from_any, took) (λ e. absurd (cc (took, e)))
        ]
      ]
