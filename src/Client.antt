-- ===== src/Client.antt =====
-- src/client/nimbus_client.cpp: the client library's calls of the coordinator and of the storage
-- nodes.
pub mod Get
pub mod Honest
pub mod Stubs
use final_project_nimbusvaul.Base.{
  ℕ, zero, suc, Bool, true, false, ◌&&◌, List, [], ◌∷◌, ◌++◌, Option, none, some, Bytes, codes,
  ◌==◌, if◌then◌else◌, ℤ, length,
}
use final_project_nimbusvaul.Base.Table.{Table, find, insert}
use final_project_nimbusvaul.Text.Split.{split_eq}
use final_project_nimbusvaul.Coordinator.{ChunkEntry}
use final_project_nimbusvaul.Replicas.{StorageNet, is_empty}

pub record PutResult : Type 0 where
  pub ok : Bool
  pub error : Bytes
  pub version : ℕ
  pub replica_nodes : List Bytes

pub record GetResult : Type 0 where
  pub ok : Bool
  pub error : Bytes
  pub content : Bytes
  pub version : ℕ

-- A gRPC call: the message of a status that is not OK, or the response.
pub data Call (A : Type 0) : Type 0 where
  broken : Bytes → Call A
  replied : A → Call A

pub record PutChunkReq : Type 0 where
  pub chunk_id : Bytes
  pub size_bytes : ℕ
  pub desired_rf : ℤ
  pub content : Bytes

pub record PutChunkResp : Type 0 where
  pub ok : Bool
  pub error : Bytes
  pub version : ℕ
  pub replica_set : List Bytes

pub record ChunkInfoResp : Type 0 where
  pub ok : Bool
  pub error : Bytes
  pub meta : ChunkEntry

-- The coordinator's gRPC stub, with what each call leaves of the system behind it.
pub record MetaNet (M : Type 0) : Type 0 where
  pub put_chunk : M → PutChunkReq → Call PutChunkResp × M
  pub chunk_info : M → Bytes → Call ChunkInfoResp × M
  -- Whether the response is ok.
  pub delete_chunk : M → Bytes → Call Bool × M

-- `NimbusClient`: the address of each node, and the address that its stub was opened for.
pub record Client : Type 0 where
  pub node_addrs : Table Bytes
  pub storage_stubs : Table Bytes

unfoldable pub parse_replica_entry : Bytes → Bytes × Bytes
unfolding split_eq
parse_replica_entry entry = elim (split_eq entry) [
  | some (node_id, address) ↦ (node_id, address)
  | none ↦ (entry, [])
]

unfoldable pub note_address : Client → Bytes → Bytes → Client
unfolding is_empty
note_address c node_id addr =
    if is_empty addr then c else record c { node_addrs = insert node_id addr c.node_addrs }

-- A stub is the address that its channel was created for; `none` is the null pointer.
unfoldable pub get_or_create_stub : Client → Bytes → Bytes → Option Bytes × Client
unfolding note_address
get_or_create_stub c node_id addr =
    let noted = note_address c node_id addr in
    elim (find node_id noted.node_addrs) [
      | none ↦ (none, noted)
      | some resolved ↦ elim (find node_id noted.storage_stubs) [
        | some opened ↦ (some opened, noted)
        | none ↦ (
          some resolved,
          record noted { storage_stubs = insert node_id resolved noted.storage_stubs },
        )
      ]
    ]

unfoldable pub put_result : Call PutChunkResp → PutResult
put_result (broken message) = record {
  ok = false;
  error = message;
  version = 0;
  replica_nodes = [];
}
put_result (replied resp) =
    if resp.ok
    then record { ok = true; error = []; version = resp.version; replica_nodes = resp.replica_set }
    else record { ok = false; error = resp.error; version = resp.version; replica_nodes = [] }

unfoldable pub build_replica_try_list : ChunkEntry → List Bytes
build_replica_try_list meta = meta.replica_set ++ meta.old_replica_set

abbrev pub attempts : ℕ
attempts = 60

unfoldable pub get_failed : Bytes → GetResult
get_failed message = record { ok = false; error = message; content = []; version = 0 }

module _ {M : Type 0} ⦃coordinator : MetaNet M⦄ where
  unfoldable pub put : M → Bytes → Bytes → ℤ → PutResult × M
  unfolding put_result
  put m chunk_id content desired_rf =
      let called = coordinator.put_chunk m (record {
        chunk_id = chunk_id;
        size_bytes = length content;
        desired_rf = desired_rf;
        content = content;
      }) in
      (put_result called.0, called.1)

  unfoldable pub remove : M → Bytes → Bool × M
  remove m chunk_id =
      let called = coordinator.delete_chunk m chunk_id in
      (elim called.0 [ broken message ↦ false | replied ok ↦ ok ], called.1)

unfoldable pub target_of : ℕ → ChunkEntry → ℕ
target_of min_version meta = if min_version == 0 then meta.version else min_version

unfoldable pub read_result : Option (Bytes × ℕ) → GetResult
unfolding get_failed
read_result none = get_failed (codes "all replicas failed")
read_result (some (content, version)) = record {
  ok = true;
  error = [];
  content = content;
  version = version;
}

module _ {N : Type 0} ⦃net : StorageNet N⦄ where
  -- The data and the version that a replica answers; `none` is the result `{}`.
  unfoldable pub try_read : Client → N → Bytes → ℕ → Bytes → Option (Bytes × ℕ) × Client × N
  unfolding parse_replica_entry get_or_create_stub
  try_read c n chunk_id target entry =
      let parsed = parse_replica_entry entry in
      let stub = get_or_create_stub c parsed.0 parsed.1 in
      elim stub.0 [
        | none ↦ (none, stub.1, n)
        | some addr ↦
            let called = net.read_rpc n addr chunk_id target in (called.0, stub.1, called.1)
      ]

  -- One attempt: the replicas in turn, up to the first that answers.
  unfoldable pub try_all : Client → N → Bytes → ℕ → List Bytes → Option (Bytes × ℕ) × Client × N
  unfolding try_read
  try_all c n chunk_id target [] = (none, c, n)
  try_all c n chunk_id target (entry ∷ entries) =
      let tried = try_read c n chunk_id target entry in
      let more = try_all tried.1 tried.2 chunk_id target entries in
      elim tried.0 [ none ↦ more | some found ↦ tried ]

  -- The attempts that are left; `sleep` is what becomes of the network in the 50 ms between two.
  unfoldable pub retry :
      (N → N) → ℕ → Client → N → Bytes → ℕ → List Bytes → Option (Bytes × ℕ) × Client × N
  unfolding try_all
  retry sleep zero c n chunk_id target entries = (none, c, n)
  retry sleep (suc left) c n chunk_id target entries =
      let tried = try_all c n chunk_id target entries in
      let rested = if left == 0 then tried.2 else sleep tried.2 in
      let more = retry sleep left tried.1 rested chunk_id target entries in
      elim tried.0 [ none ↦ more | some found ↦ tried ]

  unfoldable pub get_from : (N → N) → Client → N → Bytes → ℕ → ChunkEntry → GetResult × Client × N
  unfolding retry target_of build_replica_try_list read_result
  get_from sleep c n chunk_id min_version meta =
      let tried =
        retry sleep attempts c n chunk_id (target_of min_version meta)
          (build_replica_try_list meta) in
      (read_result tried.0, tried.1, tried.2)

  module _ {M : Type 0} ⦃coordinator : MetaNet M⦄ where
    unfoldable pub get : (N → N) → Client → M → N → Bytes → ℕ → GetResult × Client × M × N
    unfolding get_from get_failed
    get sleep c m n chunk_id min_version =
        let called = coordinator.chunk_info m chunk_id in
        elim called.0 [
          | broken message ↦ (get_failed message, c, called.1, n)
          | replied resp ↦
              if resp.ok
              then (let done = get_from sleep c n chunk_id min_version resp.meta in
                  (done.0, done.1, called.1, done.2))
              else (get_failed resp.error, c, called.1, n)
        ]
