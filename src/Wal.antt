-- ===== src/Wal.antt =====
-- src/meta/meta_wal.h and meta_wal.cpp: the write-ahead log in RocksDB.
pub mod Codec
pub mod Log
pub mod Reopen
use final_project_nimbusvaul.Base.{
  ℕ, zero, suc, ◌+◌, ◌%◌, Bool, true, false, List, [], ◌∷◌, ◌++◌, Option, none, some, Bytes, codes,
  ltb, if◌then◌else◌, u64, u32, length, take, drop, leb, ◌-◌,
}
use final_project_nimbusvaul.Base.Endian.{be_bytes, from_be}
use final_project_nimbusvaul.Rocks.{RocksDb}

-- A byte that is no enumerator is kept, as a cast keeps it.
pub data WalEntryType : Type 0 where
  put_chunk delete_chunk reconfigure_start reconfigure_commit node_heartbeat policy_update :
      WalEntryType
  unknown : ℕ → WalEntryType

unfoldable pub type_byte : WalEntryType → ℕ
type_byte put_chunk = 0
type_byte delete_chunk = 1
type_byte reconfigure_start = 2
type_byte reconfigure_commit = 3
type_byte node_heartbeat = 4
type_byte policy_update = 5
type_byte (unknown n) = n

unfoldable pub byte_type : ℕ → WalEntryType
byte_type zero = put_chunk
byte_type (suc zero) = delete_chunk
byte_type (suc (suc zero)) = reconfigure_start
byte_type (suc (suc (suc zero))) = reconfigure_commit
byte_type (suc (suc (suc (suc zero)))) = node_heartbeat
byte_type (suc (suc (suc (suc (suc zero))))) = policy_update
byte_type (suc (suc (suc (suc (suc (suc n)))))) = unknown (n + 6)

pub record WalEntry : Type 0 where
  pub log_index : ℕ
  pub term : ℕ
  pub type : WalEntryType
  pub payload : Bytes

unfoldable pub wal_key : ℕ → Bytes
wal_key idx = codes "wal/" ++ be_bytes 8 idx

unfoldable pub cmt_key : ℕ → Bytes
cmt_key idx = codes "cmt/" ++ be_bytes 8 idx

abbrev pub last_index_key : Bytes
last_index_key = codes "meta/last_index"

abbrev pub committed_key : Bytes
committed_key = codes "meta/committed"

-- Type, term, payload length and payload; the length is cast to 32 bits.
unfoldable pub encode_entry : WalEntry → Bytes
unfolding type_byte
encode_entry e =
    let plen = length e.payload % u32 in
    type_byte e.type ∷ (be_bytes 8 e.term ++ (be_bytes 4 plen ++ take plen e.payload))

-- `none` for fewer than 13 bytes, where the C++ code reads out of bounds.
unfoldable pub decode_entry : ℕ → Bytes → Option WalEntry
unfolding byte_type
decode_entry idx [] = none
decode_entry idx (t ∷ raw) =
    let plen = from_be (take 4 (drop 8 raw)) in
    if ltb (length raw) 12
    then none
    else some (record {
      log_index = idx;
      term = from_be (take 8 raw);
      type = byte_type t;
      payload = take plen (drop 12 raw);
    })

pub record Wal (D : Type 0) : Type 0 where
  pub store : D
  pub last_index : ℕ
  pub committed : ℕ

module _ {D : Type 0} ⦃db : RocksDb D⦄ where
  persisted : D → Bytes → ℕ
  persisted d key = elim (db.get d key) [ none ↦ 0 | some val ↦ from_be (take 8 val) ]

  -- `MetaWal::MetaWal` and `Impl::open` on a database that opened.
  unfoldable pub open_wal : D → Wal D
  unfolding persisted
  open_wal d = record {
    store = d;
    last_index = persisted d last_index_key;
    committed = persisted d committed_key;
  }

  unfoldable pub persist_last_index : Wal D → Wal D
  persist_last_index w = record w {
    store = (db.put w.store last_index_key (be_bytes 8 w.last_index)).1;
  }

  unfoldable pub persist_committed : Wal D → Wal D
  persist_committed w = record w {
    store = (db.put w.store committed_key (be_bytes 8 w.committed)).1;
  }

  -- `none` is the exception "WAL append failed"; the index has moved on by then.
  unfoldable pub write_entry : Wal D → WalEntry → Option ℕ × Wal D
  unfolding persist_last_index
  write_entry w e =
      let written = db.put w.store (wal_key e.log_index) (encode_entry e) in
      let w' : Wal D = record w { store = written.1; last_index = e.log_index } in
      if written.0 then (some e.log_index, persist_last_index w') else (none, w')

  unfoldable pub append : Wal D → WalEntryType → ℕ → Bytes → Option ℕ × Wal D
  unfolding write_entry
  append w type term payload =
      write_entry w (record {
        log_index = (w.last_index + 1) % u64;
        term = term;
        type = type;
        payload = payload;
      })

  -- The assertion that the index is in the log is the caller's duty; the statuses are not read.
  unfoldable pub commit : Wal D → ℕ → Wal D
  unfolding persist_committed
  commit w log_index =
      let w' : Wal D = record w { store = (db.put w.store (cmt_key log_index) (codes "1")).1 } in
      if ltb w.committed log_index
      then persist_committed (record w' { committed = log_index })
      else w'

  unfoldable pub read_entry : Wal D → ℕ → Option WalEntry
  read_entry w log_index = elim (db.get w.store (wal_key log_index)) [
    | none ↦ none
    | some raw ↦ decode_entry log_index raw
  ]

  -- The entries from `idx` on, `rounds` of them; one that is missing is passed over.
  unfoldable pub read_from : Wal D → ℕ → ℕ → List WalEntry
  read_from w idx zero = []
  read_from w idx (suc rounds) =
      let rest = read_from w (idx + 1) rounds in
      elim (read_entry w idx) [ none ↦ rest | some e ↦ e ∷ rest ]

  -- What `replay` hands to its callback, in order.
  unfoldable pub replay : Wal D → List WalEntry
  unfolding read_from
  replay w = read_from w 1 w.committed
