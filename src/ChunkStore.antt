-- ===== src/ChunkStore.antt =====
-- src/storage/chunk_store.h and chunk_store.cpp: the versions of chunks on one storage node.
pub mod Keys
pub mod Latest
pub mod Remove
use final_project_nimbusvaul.Base.{
  ℕ, zero, suc, ◌+◌, ◌-◌, ◌/◌, ◌%◌, ◌^◌, Bool, true, false, ◌&&◌, List, [], ◌∷◌, ◌++◌, Option, none,
  some, Bytes, codes, same, ltb, ◌==◌, if◌then◌else◌, length, take, drop,
}
use final_project_nimbusvaul.Text.Decimal.{to_string, stoull}
use final_project_nimbusvaul.Placement.{member}
use final_project_nimbusvaul.Rocks.{RocksDb}

-- The last `w` decimal digits of `n`.
unfoldable pub fixed : ℕ → ℕ → Bytes
fixed zero n = []
fixed (suc w) n = fixed w (n / 10) ++ (b'0' + n % 10) ∷ []

-- `snprintf` with `%010llu`: ten digits, or more for larger numbers.
unfoldable pub padded : ℕ → Bytes
unfolding fixed
padded n = if ltb n (10 ^ 10) then fixed 10 n else to_string n

unfoldable pub chunk_prefix : Bytes → Bytes
chunk_prefix id = codes "chunk/" ++ (id ++ codes "/")

unfoldable pub make_key : Bytes → ℕ → Bytes
unfolding padded
make_key id ver = codes "chunk/" ++ (id ++ (codes "/" ++ padded ver))

-- `key.substr(prefix.size())` of a key that begins with the prefix.
unfoldable pub strip : Bytes → Bytes → Option Bytes
strip [] key = some key
strip (p ∷ prefix) [] = none
strip (p ∷ prefix) (c ∷ key) = elim (p == c) [ true ↦ strip prefix key | false ↦ none ]

-- `key.rfind('/')` as the part in front of it.
unfoldable pub before_last_slash : Bytes → Option Bytes
before_last_slash [] = none
before_last_slash (c ∷ s) = elim (before_last_slash s) [
  | some front ↦ some (c ∷ front)
  | none ↦ if c == b'/' then some [] else none
]

abbrev pub last_version : ℕ
last_version = 9999999999

-- The database, if it could be opened.
pub record ChunkStore (D : Type 0) : Type 0 where
  pub db : Option D

module _ {D : Type 0} ⦃r : RocksDb D⦄ where
  unfoldable pub write_db : D → Bytes → ℕ → Bytes → Bool × D
  write_db d chunk_id version content = r.put d (make_key chunk_id version) content

  unfoldable pub write : ChunkStore D → Bytes → ℕ → Bytes → Bool × ChunkStore D
  unfolding write_db
  write s chunk_id version content = elim s.db [
    | none ↦ (false, s)
    | some d ↦ (
      (write_db d chunk_id version content).0,
      record { db = some (write_db d chunk_id version content).1 },
    )
  ]

  -- The version and the data under the last key of the chunk, if that key is one.
  unfoldable pub latest_pair : D → Bytes → Option (ℕ × Bytes)
  latest_pair d chunk_id = elim (r.seek_for_prev d (make_key chunk_id last_version)) [
    | none ↦ none
    | some (key, value) ↦ elim (strip (chunk_prefix chunk_id) key) [
      | none ↦ none
      | some ver_str ↦ elim (stoull ver_str) [ none ↦ none | some found ↦ some (found, value) ]
    ]
  ]

  -- The data and its version; `none` is the return value `false`.
  unfoldable pub read : ChunkStore D → Bytes → ℕ → Option (Bytes × ℕ)
  unfolding latest_pair
  read s chunk_id min_version = elim s.db [
    | none ↦ none
    | some d ↦ elim (latest_pair d chunk_id) [
      | none ↦ none
      | some (found, value) ↦ if ltb found min_version then none else some (value, found)
    ]
  ]

  unfoldable pub remove_db : D → Bytes → Bool × D
  remove_db d chunk_id = r.delete_range d (make_key chunk_id 0) (chunk_prefix chunk_id ++ codes "~")

  unfoldable pub remove : ChunkStore D → Bytes → Bool × ChunkStore D
  unfolding remove_db
  remove s chunk_id = elim s.db [
    | none ↦ (false, s)
    | some d ↦ ((remove_db d chunk_id).0, record { db = some (remove_db d chunk_id).1 })
  ]

  unfoldable pub latest_version : ChunkStore D → Bytes → ℕ
  unfolding latest_pair
  latest_version s chunk_id = elim s.db [
    | none ↦ 0
    | some d ↦ elim (latest_pair d chunk_id) [ none ↦ 0 | some (found, value) ↦ found ]
  ]

-- The id in a key below "chunk/"; `none` for a key that is passed over.
unfoldable pub id_of_key : Bytes → Option Bytes
unfolding before_last_slash
id_of_key rest = elim (before_last_slash rest) [
  | none ↦ none
  | some [] ↦ none
  | some (c ∷ id) ↦ some (c ∷ id)
]

-- The walk over the keys, up to the first that is no chunk key; each id once.
unfoldable pub ids_in_keys : List Bytes → List Bytes
unfolding id_of_key strip
ids_in_keys [] = []
ids_in_keys (key ∷ keys) =
    let more = ids_in_keys keys in
    elim (strip (codes "chunk/") key) [
      | none ↦ []
      | some rest ↦ elim (id_of_key rest) [
        | none ↦ more
        | some id ↦ if member id more then more else id ∷ more
      ]
    ]

module _ {D : Type 0} ⦃r : RocksDb D⦄ where
  unfoldable pub list_chunk_ids : ChunkStore D → List Bytes
  unfolding ids_in_keys
  list_chunk_ids s = elim s.db [ none ↦ [] | some d ↦ ids_in_keys (r.keys_from d (codes "chunk/")) ]
