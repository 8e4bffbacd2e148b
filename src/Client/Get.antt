-- ===== src/Client/Get.antt =====
-- The client's read loop reads a replica that comes up in time.
use final_project_nimbusvaul.Base.{
  ℕ, zero, suc, ◌-◌, ◌≤◌, ◌<◌, ◌≡◌, ◌≢◌, refl, sym, ◌∙◌, Bool, true, false, ◌||◌, List, [], ◌∷◌,
  none, some, Bytes, same, same_iff, arith, ◌==◌, All, Option-cases, Bool-cases, if_elim, inl, inr,
}
use final_project_nimbusvaul.Text.Split.{split_eq}
use final_project_nimbusvaul.Replicas.{StorageNet, extract_node_id}
use final_project_nimbusvaul.ChunkRpc.{has_replica_node}
use final_project_nimbusvaul.Client.{
  Client, replied, MetaNet, ChunkInfoResp, parse_replica_entry, get_or_create_stub,
  build_replica_try_list, attempts, target_of, try_read, try_all, retry, read_result, get_from, get,
}
use final_project_nimbusvaul.Client.Stubs.{
  StubFits, get_or_create_stub-fits, get_or_create_stub-opens,
}

-- An entry for the node, if it is one, gives the address.
abbrev pub GivesAddress : Bytes → Bytes → Bytes → Type 0
GivesAddress node_id addr entry =
    (parse_replica_entry entry).0 ≡ node_id → (parse_replica_entry entry).1 ≡ addr

parse-extract : (entry : Bytes) → (parse_replica_entry entry).0 ≡ extract_node_id entry
unfolding parse_replica_entry extract_node_id
parse-extract entry = elim (Option-cases (split_eq entry)) [
  | inl nothing ↦ rw (nothing, parse_replica_entry, extract_node_id) refl
  | inr (both, at) ↦ rw (at, parse_replica_entry, extract_node_id) refl
]

module _ {N : Type 0} ⦃net : StorageNet N⦄ where
  -- The replica at the address comes up, in the networks that `on` describes: `delay` bounds the
  -- pauses until it answers the read, no call makes it longer, and each pause makes it shorter.
  pub record ComesUp (on : N → Type 0) (sleep : N → N) (addr chunk_id : Bytes) (target : ℕ)
      : Type 0 where
    pub delay : N → ℕ
    pub reads :
        (n : N) (other : Bytes)
        → on n
        → on (net.read_rpc n other chunk_id target).1
          × (delay (net.read_rpc n other chunk_id target).1 ≤ delay n)
    pub sleeps : (n : N) → on n → on (sleep n) × (delay (sleep n) ≤ delay n - 1)
    pub answers : (n : N) → on n → delay n ≡ 0 → (net.read_rpc n addr chunk_id target).0 ≢ none

  module _ (on : N → Type 0) (sleep : N → N) (addr chunk_id : Bytes) (target : ℕ)
      (up : ComesUp on sleep addr chunk_id target) (node_id : Bytes) (given : addr ≢ []) where
    try_read_state :
        (c : Client) (n : N) (entry : Bytes)
        → GivesAddress node_id addr entry
        → StubFits node_id addr c
        → on n
        → StubFits node_id addr (try_read c n chunk_id target entry).1
          × on (try_read c n chunk_id target entry).2
          × (up.delay (try_read c n chunk_id target entry).2 ≤ up.delay n)
    unfolding try_read
    try_read_state c n entry gives fits here =
        let parsed = parse_replica_entry entry in
        let kept = get_or_create_stub-fits c parsed.0 parsed.1 node_id addr gives given fits in
        elim (Option-cases (get_or_create_stub c parsed.0 parsed.1).0) [
          | inl null ↦ rw (null, try_read) (kept, here, omega arith)
          | inr (opened, at) ↦
              let read = up.reads n opened here in rw (at, try_read) (kept, read.0, read.1)
        ]

    try_read_answers :
        (c : Client) (n : N) (entry : Bytes)
        → GivesAddress node_id addr entry
        → StubFits node_id addr c
        → on n
        → (parse_replica_entry entry).0 ≡ node_id
        → up.delay n ≡ 0
        → (try_read c n chunk_id target entry).0 ≢ none
    unfolding try_read
    try_read_answers c n entry gives fits here named now =
        let parsed = parse_replica_entry entry in
        let stub = stub_at parsed.0 parsed.1 named (gives named) in
        let called : (try_read c n chunk_id target entry).0
            ≡ (net.read_rpc n addr chunk_id target).0 =
          rw (stub, try_read) refl in
        λ e. up.answers n here now (sym called ∙ e)
      where
        stub_at : (i a : Bytes) → i ≡ node_id → a ≡ addr → (get_or_create_stub c i a).0 ≡ some addr
        stub_at i a is at = rw (is, at) (get_or_create_stub-opens c node_id addr given fits)

    try_all_state :
        (entries : List Bytes) (c : Client) (n : N)
        → All (GivesAddress node_id addr) entries
        → StubFits node_id addr c
        → on n
        → StubFits node_id addr (try_all c n chunk_id target entries).1
          × on (try_all c n chunk_id target entries).2
          × (up.delay (try_all c n chunk_id target entries).2 ≤ up.delay n)
    unfolding try_all
    try_all_state [] c n gives fits here = (fits, here, omega arith)
    try_all_state (entry ∷ entries) c n gives fits here =
        let first = try_read_state c n entry gives.0 fits here in
        let tried = try_read c n chunk_id target entry in
        let more = try_all_state entries tried.1 tried.2 gives.1 first.0 first.1 in
        elim (Option-cases tried.0) [
          | inl nothing ↦ rw (nothing, try_all) (more.0, more.1, omega (arith, more.2, first.2))
          | inr (found, at) ↦ rw (at, try_all) first
        ]

    try_all_answers :
        (entries : List Bytes) (c : Client) (n : N)
        → All (GivesAddress node_id addr) entries
        → StubFits node_id addr c
        → on n
        → has_replica_node entries node_id ≡ true
        → up.delay n ≡ 0
        → (try_all c n chunk_id target entries).0 ≢ none
    unfolding try_all has_replica_node
    try_all_answers [] c n gives fits here listed now = absurd (cc)
    try_all_answers (entry ∷ entries) c n gives fits here listed now =
        let first = try_read_state c n entry gives.0 fits here in
        let tried = try_read c n chunk_id target entry in
        elim (Option-cases tried.0) [
          | inr (found, at) ↦ rw (at, try_all) (λ e. absurd (cc))
          | inl nothing ↦ elim (Bool-cases (same (extract_node_id entry) node_id)) [
            | inl named ↦ absurd (
                try_read_answers c n entry gives.0 fits here
                  (parse-extract entry ∙ (same_iff (extract_node_id entry) node_id).0 named) now
                  nothing)
            | inr other ↦
                rw (nothing, try_all)
                  (try_all_answers entries tried.1 tried.2 gives.1 first.0 first.1
                    (rest_listed other listed) (omega (arith, first.2)))
          ]
        ]
      where
        rest_listed : {a b : Bool} → a ≡ false → (a || b) ≡ true → b ≡ true
        rest_listed e h = ground (arith, e, h)

    retry_answers :
        (left : ℕ) (entries : List Bytes) (c : Client) (n : N)
        → All (GivesAddress node_id addr) entries
        → StubFits node_id addr c
        → on n
        → has_replica_node entries node_id ≡ true
        → up.delay n < left
        → (retry sleep left c n chunk_id target entries).0 ≢ none
    unfolding retry
    retry_answers zero entries c n gives fits here listed soon = absurd (omega arith)
    retry_answers (suc left) entries c n gives fits here listed soon =
        let tried = try_all c n chunk_id target entries in
        let state = try_all_state entries c n gives fits here in
        let rested = up.sleeps tried.2 state.1 in
        elim (Option-cases tried.0) [
          | inr (found, at) ↦ rw (at, retry) (λ e. absurd (cc))
          | inl nothing ↦
              let later : up.delay n ≢ 0 =
                λ z. try_all_answers entries c n gives fits here listed z nothing in
              rw (nothing, retry)
                (if_elim (λ r. (retry sleep left tried.1 r chunk_id target entries).0 ≢ none)
                  (left == 0) _ _ (λ last. absurd (later (ground arith)))
                  (λ goes_on.
                    retry_answers left entries tried.1 (sleep tried.2) gives state.0 rested.0 listed
                      (rested_soon (up.delay n) (up.delay tried.2) (up.delay (sleep tried.2)) left
                        later soon state.2 rested.1)))
        ]
      where
        rested_soon : (d t r left : ℕ) → d ≢ 0 → d < suc left → t ≤ d → r ≤ t - 1 → r < left
        rested_soon d t r left ne lt le less = ground arith

  -- The read succeeds whenever a replica comes up while it lasts: the coordinator replies with ok and
  -- names the node, with its address in every entry that names it; the client has no stub of the node for another
  -- address; and, in the networks that `on` describes, the replica answers after less than 60 pauses.
  pub get-finds_replica :
      {M : Type 0} ⦃coordinator : MetaNet M⦄ (sleep : N → N) (c : Client) (m : M) (n : N)
      (chunk_id node_id addr : Bytes) (min_version : ℕ) (resp : ChunkInfoResp) (on : N → Type 0)
      → (coordinator.chunk_info m chunk_id).0 ≡ replied resp
      → resp.ok ≡ true
      → let entries = build_replica_try_list resp.meta in
        has_replica_node entries node_id ≡ true
        → All (GivesAddress node_id addr) entries
        → addr ≢ []
        → StubFits node_id addr c
        → (up : ComesUp on sleep addr chunk_id (target_of min_version resp.meta)) → on n
        → up.delay n < attempts
        → (get sleep c m n chunk_id min_version).0.ok ≡ true
  unfolding get get_from
  get-finds_replica sleep c m n chunk_id node_id addr min_version resp on told ok listed gives given
        fits up here soon =
      let found =
        retry_answers on sleep addr chunk_id (target_of min_version resp.meta) up node_id given
          attempts (build_replica_try_list resp.meta) c n gives fits here listed soon in
      elim (Option-cases
        (retry sleep attempts c n chunk_id (target_of min_version resp.meta)
          (build_replica_try_list resp.meta)).0) [
            | inl nothing ↦ absurd (found nothing)
            | inr (answer, at) ↦ rw (told, get, ok, get_from, at) (unfold read_result in refl)
          ]
