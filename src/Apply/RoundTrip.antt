-- ===== src/Apply/RoundTrip.antt =====
-- What the leader encodes in a payload is what every server applies.
use final_project_nimbusvaul.Base.{
  ℕ, ◌<◌, ◌≡◌, ◌≢◌, refl, List, [], ◌∷◌, ◌++◌, some, Bytes, arith, pos, u64, int_top, All, Lacks,
  ap, ◌∙◌,
}
use final_project_nimbusvaul.Text.Decimal.{to_string, int_to_string}
use final_project_nimbusvaul.Text.Decimal.RoundTrip.{
  to_string-All, to_string-ne-nil, stoull-to_string, stoi-int_to_string, Lacks-digits,
}
use final_project_nimbusvaul.Text.Split.{split_nonempty, comma_list}
use final_project_nimbusvaul.Text.Split.Laws.{
  IsItem, nonempty_cons, nonempty_end, split-comma_list, Lacks-comma_list, comma_list-ne-nil,
}
use final_project_nimbusvaul.Float.{Floats, FloatText}
use final_project_nimbusvaul.Wal.{put_chunk, reconfigure_start, reconfigure_commit, node_heartbeat}
use final_project_nimbusvaul.Coordinator.{
  Coordinator, apply_put_chunk, apply_reconfig_start, apply_reconfig_commit, apply_heartbeat,
}
use final_project_nimbusvaul.Apply.{
  put_payload, encode_reconfig_start, encode_reconfig_commit, HeartbeatReq,
  encode_heartbeat_payload, parse_heartbeat_payload, parse_heartbeat_parts, apply_put_parts,
  apply_start_parts, apply_commit_parts, apply_heartbeat_req, apply_typed, apply_wal_entry,
}

-- A chunk id that can stand in a payload, and a list of replica entries that can.
abbrev pub IsName : Bytes → Type 0
IsName s = (s ≢ []) × Lacks b'|' s

abbrev pub IsReplica : Bytes → Type 0
IsReplica s = (s ≢ []) × Lacks b',' s × Lacks b'|' s

pub record AreReplicas (ns : List Bytes) : Type 0 where
  pub some_replica : ns ≢ []
  pub each : All IsReplica ns

pub items : (ns : List Bytes) → All IsReplica ns → All IsItem ns
items [] h = tt
items (n ∷ ns) h = ((h.0.0, h.0.1), items ns h.1)

no_bars : (ns : List Bytes) → All IsReplica ns → All (Lacks b'|') ns
no_bars [] h = tt
no_bars (n ∷ ns) h = (h.0.2, no_bars ns h.1)

number_IsName : (n : ℕ) → IsName (to_string n)
number_IsName n = (
  to_string-ne-nil n,
  Lacks-digits b'|' (to_string n) (λ d. omega (arith, d.1)) (to_string-All n),
)

commas_IsName : (ns : List Bytes) → AreReplicas ns → IsName (comma_list ns)
commas_IsName [] h = absurd (h.some_replica refl)
commas_IsName (n ∷ ns) h = (
  comma_list-ne-nil n ns,
  Lacks-comma_list b'|' (n ∷ ns) (λ e. omega arith) (no_bars (n ∷ ns) h.each),
)

-- The bar-separated payloads with two, three, five and six parts.
split_two : (a b : Bytes) → IsName a → IsName b → split_nonempty (a ++ b'|' ∷ b) b'|' ≡ a ∷ b ∷ []
unfolding split_nonempty
split_two a b ha hb = nonempty_cons b'|' a b ha.1 ha.0 [] ∙ nonempty_end b'|' b hb.1 hb.0 (a ∷ [])

split_three :
    (a b c : Bytes)
    → IsName a
    → IsName b
    → IsName c
    → split_nonempty (a ++ b'|' ∷ (b ++ b'|' ∷ c)) b'|' ≡ a ∷ b ∷ c ∷ []
unfolding split_nonempty
split_three a b c ha hb hc =
    nonempty_cons b'|' a _ ha.1 ha.0 []
    ∙ nonempty_cons b'|' b c hb.1 hb.0 (a ∷ [])
    ∙ nonempty_end b'|' c hc.1 hc.0 (a ∷ b ∷ [])

split_five :
    (a b c d e : Bytes)
    → IsName a
    → IsName b
    → IsName c
    → IsName d
    → IsName e
    → split_nonempty (a ++ b'|' ∷ (b ++ b'|' ∷ (c ++ b'|' ∷ (d ++ b'|' ∷ e)))) b'|'
      ≡ a ∷ b ∷ c ∷ d ∷ e ∷ []
unfolding split_nonempty
split_five a b c d e ha hb hc hd he =
    nonempty_cons b'|' a _ ha.1 ha.0 []
    ∙ nonempty_cons b'|' b _ hb.1 hb.0 (a ∷ [])
    ∙ nonempty_cons b'|' c _ hc.1 hc.0 (a ∷ b ∷ [])
    ∙ nonempty_cons b'|' d e hd.1 hd.0 (a ∷ b ∷ c ∷ [])
    ∙ nonempty_end b'|' e he.1 he.0 (a ∷ b ∷ c ∷ d ∷ [])

split_six :
    (a b c d e f : Bytes)
    → IsName a
    → IsName b
    → IsName c
    → IsName d
    → IsName e
    → IsName f
    → split_nonempty (a ++ b'|' ∷ (b ++ b'|' ∷ (c ++ b'|' ∷ (d ++ b'|' ∷ (e ++ b'|' ∷ f))))) b'|'
      ≡ a ∷ b ∷ c ∷ d ∷ e ∷ f ∷ []
unfolding split_nonempty
split_six a b c d e f ha hb hc hd he hf =
    nonempty_cons b'|' a _ ha.1 ha.0 []
    ∙ nonempty_cons b'|' b _ hb.1 hb.0 (a ∷ [])
    ∙ nonempty_cons b'|' c _ hc.1 hc.0 (a ∷ b ∷ [])
    ∙ nonempty_cons b'|' d _ hd.1 hd.0 (a ∷ b ∷ c ∷ [])
    ∙ nonempty_cons b'|' e f he.1 he.0 (a ∷ b ∷ c ∷ d ∷ [])
    ∙ nonempty_end b'|' f hf.1 hf.0 (a ∷ b ∷ c ∷ d ∷ e ∷ [])

pub split-put_payload :
    (chunk_id : Bytes) (size rf version : ℕ) (replicas : List Bytes)
    → IsName chunk_id
    → AreReplicas replicas
    → split_nonempty (put_payload chunk_id size (pos rf) version replicas) b'|'
      ≡ chunk_id
        ∷ to_string size
        ∷ int_to_string (pos rf)
        ∷ to_string version
        ∷ comma_list replicas
        ∷ []
unfolding put_payload int_to_string
split-put_payload chunk_id size rf version replicas hn hr =
    split_five chunk_id (to_string size) (to_string rf) (to_string version) (comma_list replicas) hn
      (number_IsName size) (number_IsName rf) (number_IsName version) (commas_IsName replicas hr)

module _ {F : Type 0} where
  put_parts :
      (c : Coordinator F) (chunk_id : Bytes) (size rf version : ℕ) (replicas : List Bytes)
      → size < u64
      → rf < int_top
      → version < u64
      → All IsItem replicas
      → apply_put_parts c (
          chunk_id
          ∷ to_string size
          ∷ int_to_string (pos rf)
          ∷ to_string version
          ∷ comma_list replicas
          ∷ [])
        ≡ some (apply_put_chunk c chunk_id size (pos rf) replicas version)
  unfolding apply_put_parts
  put_parts c chunk_id size rf version replicas hs hr hv h = rw (
    stoull-to_string size hs,
    apply_put_parts,
    stoi-int_to_string rf hr,
    stoull-to_string version hv,
    split-comma_list replicas h,
  )

module _ {F : Type 0} ⦃fl : Floats F⦄ where
  -- A PUT_CHUNK payload is applied with the chunk id, size, replication factor, version and
  -- replica list that it was built from, if the id and the entries are not empty and hold no
  -- separator, there is an entry, and the numbers fit their C++ types.
  pub apply-put_payload :
      (c : Coordinator F) (now idx term : ℕ) (chunk_id : Bytes) (size rf version : ℕ)
      (replicas : List Bytes)
      → IsName chunk_id
      → AreReplicas replicas
      → size < u64
      → rf < int_top
      → version < u64
      → apply_wal_entry c now (record {
        log_index = idx;
        term = term;
        type = put_chunk;
        payload = put_payload chunk_id size (pos rf) version replicas;
      })
        ≡ some (apply_put_chunk c chunk_id size (pos rf) replicas version)
  unfolding apply_typed apply_wal_entry
  apply-put_payload c now idx term chunk_id size rf version replicas hn hr hs hrf hv =
      ap (apply_put_parts c) (split-put_payload chunk_id size rf version replicas hn hr)
      ∙ put_parts c chunk_id size rf version replicas hs hrf hv (items replicas hr.each)

  -- A RECONFIGURE_START payload is applied with the chunk id and the two sets that it was built from,
  -- if the id is not empty and holds no bar, and both sets have an entry and none that is empty or
  -- holds a bar or a comma.
  pub apply-encode_reconfig_start :
      (c : Coordinator F) (now idx term : ℕ) (chunk_id : Bytes) (old_set new_set : List Bytes)
      → IsName chunk_id
      → AreReplicas old_set
      → AreReplicas new_set
      → apply_wal_entry c now (record {
        log_index = idx;
        term = term;
        type = reconfigure_start;
        payload = encode_reconfig_start chunk_id old_set new_set;
      })
        ≡ some (apply_reconfig_start c chunk_id old_set new_set)
  unfolding apply_typed apply_wal_entry encode_reconfig_start
  apply-encode_reconfig_start c now idx term chunk_id old_set new_set hn ho hw =
      ap (λ p. some (apply_start_parts c p))
        (split_three chunk_id (comma_list old_set) (comma_list new_set) hn
          (commas_IsName old_set ho) (commas_IsName new_set hw))
      ∙ rw (
        split-comma_list old_set (items old_set ho.each),
        apply_start_parts,
        split-comma_list new_set (items new_set hw.each),
      )

  -- And a RECONFIGURE_COMMIT payload with at least one new replica.
  pub apply-encode_reconfig_commit :
      (c : Coordinator F) (now idx term : ℕ) (chunk_id : Bytes) (new_set : List Bytes)
      → IsName chunk_id
      → AreReplicas new_set
      → apply_wal_entry c now (record {
        log_index = idx;
        term = term;
        type = reconfigure_commit;
        payload = encode_reconfig_commit chunk_id new_set;
      })
        ≡ some (apply_reconfig_commit c chunk_id new_set)
  unfolding apply_typed apply_wal_entry encode_reconfig_commit
  apply-encode_reconfig_commit c now idx term chunk_id new_set hn hw =
      ap (λ p. some (apply_commit_parts c p))
        (split_two chunk_id (comma_list new_set) hn (commas_IsName new_set hw))
      ∙ rw (split-comma_list new_set (items new_set hw.each), apply_commit_parts)

  module _ (text : FloatText fl) where
    heartbeat_parts :
        (req : HeartbeatReq F)
        → req.free_bytes < u64
        → req.total_bytes < u64
        → parse_heartbeat_parts (
            req.node_id
            ∷ req.address
            ∷ fl.to_string req.load_fraction
            ∷ to_string req.free_bytes
            ∷ to_string req.total_bytes
            ∷ fl.to_string req.failure_rate_7d
            ∷ [])
          ≡ some (record {
            node_id = req.node_id;
            address = req.address;
            load_fraction = text.rounded req.load_fraction;
            free_bytes = req.free_bytes;
            total_bytes = req.total_bytes;
            failure_rate_7d = text.rounded req.failure_rate_7d;
            chunk_access_counts = [];
          })
    unfolding parse_heartbeat_parts
    heartbeat_parts req hf ht = rw (
      text.stof-to_string req.load_fraction,
      parse_heartbeat_parts,
      stoull-to_string req.free_bytes hf,
      stoull-to_string req.total_bytes ht,
      text.stof-to_string req.failure_rate_7d,
    )

    -- A heartbeat whose node id and address are not empty and hold no bar, and whose sizes fit 64
    -- bits, is applied with the node id, the address and the sizes that the node sent, and with its
    -- two fractions rounded to the printed decimals.
    pub apply-heartbeat_payload :
        (c : Coordinator F) (now idx term : ℕ) (req : HeartbeatReq F)
        → IsName req.node_id
        → IsName req.address
        → req.free_bytes < u64
        → req.total_bytes < u64
        → apply_wal_entry c now (record {
          log_index = idx;
          term = term;
          type = node_heartbeat;
          payload = encode_heartbeat_payload req;
        })
          ≡ some (
              apply_heartbeat c now req.node_id req.address
                (text.rounded req.load_fraction)
                req.free_bytes
                req.total_bytes
                (text.rounded req.failure_rate_7d))
    unfolding apply_typed apply_wal_entry encode_heartbeat_payload parse_heartbeat_payload
        apply_heartbeat_req
    apply-heartbeat_payload c now idx term req hn ha hf ht =
        ap (λ p. some (apply_heartbeat_req c now (parse_heartbeat_parts p)))
          (split_six req.node_id req.address (fl.to_string req.load_fraction)
            (to_string req.free_bytes) (to_string req.total_bytes)
            (fl.to_string req.failure_rate_7d) hn ha (text_name req.load_fraction)
            (number_IsName req.free_bytes) (number_IsName req.total_bytes)
            (text_name req.failure_rate_7d))
        ∙ ap (λ h. some (apply_heartbeat_req c now h)) (heartbeat_parts req hf ht)
      where
        text_name : (x : F) → IsName (fl.to_string x)
        text_name x = ((text.to_string-IsText x).0, (text.to_string-IsText x).1)
