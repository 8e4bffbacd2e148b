-- ===== src/Wal/Codec.antt =====
-- An encoded entry is decoded to itself.
use final_project_nimbusvaul.Base.{
  ℕ, suc, ◌%◌, ◌≤◌, ◌<◌, ◌≡◌, refl, [], ◌∷◌, ◌++◌, some, Bytes, ltb, u64, u32, length,
  length-append, take, drop, take-length-append, drop-length-append, arith, ap, sym, ◌∙◌, subst,
  ◌-◌, append-nil, append_assoc, le→ltb-false, false, Option,
}
use final_project_nimbusvaul.Base.Endian.{
  be_bytes, from_be, from_be-64, from_be-32, length-be_bytes,
}
use final_project_nimbusvaul.Wal.{
  WalEntryType, put_chunk, delete_chunk, reconfigure_start, reconfigure_commit, node_heartbeat,
  policy_update, unknown, type_byte, byte_type, WalEntry, encode_entry, decode_entry,
}

-- An enumerator, or a byte above them all.
abbrev pub IsTyped : WalEntryType → Type 0
IsTyped (unknown n) = 6 ≤ n
IsTyped _ = Unit

byte_type-type_byte : (t : WalEntryType) → IsTyped t → byte_type (type_byte t) ≡ t
unfolding type_byte byte_type
byte_type-type_byte put_chunk h = refl
byte_type-type_byte delete_chunk h = refl
byte_type-type_byte reconfigure_start h = refl
byte_type-type_byte reconfigure_commit h = refl
byte_type-type_byte node_heartbeat h = refl
byte_type-type_byte policy_update h = refl
byte_type-type_byte (unknown n) h =
    let e : n ≡ suc (suc (suc (suc (suc (suc (n - 6)))))) = omega arith in
    subst (λ k. byte_type k ≡ unknown k) (sym e) (ap unknown (omega arith))

-- The fields of an entry fit their places in the encoding.
pub record IsEncodable (e : WalEntry) : Type 0 where
  pub term_fits : e.term < u64
  pub payload_fits : length e.payload < u32
  pub typed : IsTyped e.type

take_of_length : (n : ℕ) (a b : Bytes) → length a ≡ n → take n (a ++ b) ≡ a
take_of_length n a b h = subst (λ k. take k (a ++ b) ≡ a) h (take-length-append a b)

drop_of_length : (n : ℕ) (a b : Bytes) → length a ≡ n → drop n (a ++ b) ≡ b
drop_of_length n a b h = subst (λ k. drop k (a ++ b) ≡ b) h (drop-length-append a b)

pub take_all : (a : Bytes) → take (length a) a ≡ a
take_all a = subst (λ b. take (length a) b ≡ a) (append-nil a) (take-length-append a [])

-- Decoding takes the four parts apart.
decode_parts :
    (idx t : ℕ) (tb lb p : Bytes)
    → length tb ≡ 8
    → length lb ≡ 4
    → length p ≡ from_be lb
    → decode_entry idx (t ∷ (tb ++ (lb ++ p)))
      ≡ some (record { log_index = idx; term = from_be tb; type = byte_type t; payload = p })
unfolding decode_entry
decode_parts idx t tb lb p h8 h4 hp =
    let e1 = take_of_length 8 tb (lb ++ p) h8 in
    let e2 = drop_of_length 8 tb (lb ++ p) h8 in
    let e3 = take_of_length 4 lb p h4 in
    let e4 : drop 12 (tb ++ (lb ++ p)) ≡ p =
      ap (drop 12) (sym (append_assoc tb lb p))
      ∙ drop_of_length 12 (tb ++ lb) p (omega (arith, length-append tb lb)) in
    let e5 : take (from_be lb) p ≡ p = subst (λ k. take k p ≡ p) hp (take_all p) in
    let e6 : ltb (length (tb ++ (lb ++ p))) 12 ≡ false =
      le→ltb-false _ 12 (omega (arith, length-append tb (lb ++ p), length-append lb p)) in
    rw (e6, e2, e3, e4, e1, e5)

take_plen : (p : Bytes) → length p < u32 → take (length p % u32) p ≡ p
take_plen p h = subst (λ k. take k p ≡ p) {x = length p} (omega arith) (take_all p)

-- An entry that fits is decoded, under its index, to what was encoded.
pub decode-encode :
    (e : WalEntry) → IsEncodable e → decode_entry e.log_index (encode_entry e) ≡ some e
unfolding encode_entry
decode-encode e h =
    let plen = length e.payload % u32 in
    let q : from_be (be_bytes 4 plen) ≡ plen = from_be-32 plen (omega (arith, h.payload_fits)) in
    let fit : length e.payload ≡ plen = omega (arith, h.payload_fits) in
    rw (take_plen e.payload h.payload_fits) (
      decode_parts e.log_index (type_byte e.type) (be_bytes 8 e.term) (be_bytes 4 plen) e.payload
        (length-be_bytes 8 e.term) (length-be_bytes 4 plen) (fit ∙ sym q)
      ∙ same_entry (from_be-64 e.term h.term_fits) (byte_type-type_byte e.type h.typed))
  where
    same_entry :
        {n : ℕ} {t : WalEntryType}
        → n ≡ e.term
        → t ≡ e.type
        → ◌≡◌ {A = Option WalEntry}
            (some (record { log_index = e.log_index; term = n; type = t; payload = e.payload }))
            (some e)
    same_entry p q =
        λ i. some (record { log_index = e.log_index; term = p i; type = q i; payload = e.payload })
