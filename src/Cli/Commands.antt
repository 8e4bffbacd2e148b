-- ===== src/Cli/Commands.antt =====
-- The commands of src/bin/nimbus_cli.cpp. What they print on either stream is part of the outcome.
use final_project_nimbusvaul.Base.{
  ℕ, Bool, List, [], ◌∷◌, ◌++◌, Bytes, codes, same, if◌then◌else◌, pos, length,
}
use final_project_nimbusvaul.Base.Table.{Table}
use final_project_nimbusvaul.Text.Decimal.{to_string, int_to_string}
use final_project_nimbusvaul.Coordinator.{ChunkEntry, ChunkConfigState, stable, transitioning}
use final_project_nimbusvaul.Replicas.{StorageNet}
use final_project_nimbusvaul.Client.{
  Call, broken, replied, MetaNet, ChunkInfoResp, PutResult, GetResult, put, get, remove,
}
use final_project_nimbusvaul.Cli.{default_options, parse_flags}

unfoldable pub config_state_str : ChunkConfigState → Bytes
config_state_str stable = codes "STABLE"
config_state_str transitioning = codes "TRANSITIONING"

-- The exit code, and what goes to the standard output and to the standard error.
pub record Outcome : Type 0 where
  pub code : ℕ
  pub out : Bytes
  pub err : Bytes

unfoldable pub succeed : Bytes → Outcome
succeed text = record { code = 0; out = text; err = [] }

unfoldable pub fail : Bytes → Outcome
fail text = record { code = 1; out = []; err = text }

unfoldable pub replica_lines : List Bytes → Bytes
replica_lines [] = []
replica_lines (r ∷ rs) = codes "  " ++ r ++ codes "\n" ++ replica_lines rs

unfoldable pub old_replica_lines : List Bytes → Bytes
unfolding replica_lines
old_replica_lines [] = []
old_replica_lines (r ∷ rs) = codes "old_replicas (transitioning):\n" ++ replica_lines (r ∷ rs)

unfoldable pub info_text : ChunkEntry → Bytes
unfolding replica_lines old_replica_lines config_state_str
info_text m =
    codes "chunk_id:    "
    ++ m.chunk_id
    ++ codes "\n"
    ++ codes "version:     "
    ++ to_string m.version
    ++ codes "\n"
    ++ codes "size_bytes:  "
    ++ to_string m.size_bytes
    ++ codes "\n"
    ++ codes "rf:          "
    ++ int_to_string m.replication_factor
    ++ codes "\n"
    ++ codes "state:       "
    ++ config_state_str m.config_state
    ++ codes "\n"
    ++ codes "replicas:\n"
    ++ replica_lines m.replica_set
    ++ old_replica_lines m.old_replica_set

unfoldable pub rpc_failed : Bytes → Outcome
unfolding fail
rpc_failed message = fail (codes "RPC failed: " ++ message ++ codes "\n")

unfoldable pub answer_error : Bytes → Outcome
unfolding fail
answer_error error = fail (codes "Error: " ++ error ++ codes "\n")

abbrev pub usage : Bytes
usage =
    codes "Usage: nimbus_cli [--meta ADDR] [--nodes ID=ADDR,...] <command> [args]\n\n"
    ++ codes "Commands:\n"
    ++ codes "  put <chunk_id> <data>                Write data to chunk\n"
    ++ codes "  get <chunk_id>                        Read chunk data\n"
    ++ codes "  del <chunk_id>                        Delete chunk\n"
    ++ codes "  info <chunk_id>                       Show chunk placement info\n"
    ++ codes "  add-replica <chunk_id> <node_id>      Add replica for chunk\n"
    ++ codes "  remove-replica <chunk_id> <node_id>   Remove replica from chunk\n"

pub record ReplicaChangeResp : Type 0 where
  pub ok : Bool
  pub error : Bytes

-- The coordinator's calls that only this program makes.
pub record AdminNet (M : Type 0) : Type 0 where
  pub add_replica : M → Bytes → Bytes → Call ReplicaChangeResp × M
  pub remove_replica : M → Bytes → Bytes → Call ReplicaChangeResp × M

unfoldable pub put_outcome : PutResult → Outcome
unfolding succeed fail
put_outcome r =
    if r.ok
    then succeed (
        codes "OK version="
        ++ to_string r.version
        ++ codes " replicas="
        ++ to_string (length r.replica_nodes)
        ++ codes "\n")
    else fail (codes "PUT failed: " ++ r.error ++ codes "\n")

unfoldable pub get_outcome : GetResult → Outcome
unfolding succeed fail
get_outcome r =
    if r.ok
    then succeed (r.content ++ codes "\n")
    else fail (codes "GET failed: " ++ r.error ++ codes "\n")

unfoldable pub info_outcome : Call ChunkInfoResp → Outcome
unfolding succeed info_text rpc_failed answer_error
info_outcome (broken message) = rpc_failed message
info_outcome (replied resp) =
    if resp.ok then succeed (info_text resp.meta) else answer_error resp.error

unfoldable pub change_outcome : Call ReplicaChangeResp → Bytes → Outcome
unfolding succeed rpc_failed answer_error
change_outcome (broken message) text = rpc_failed message
change_outcome (replied resp) text = if resp.ok then succeed text else answer_error resp.error

module _ {M N : Type 0} ⦃coordinator : MetaNet M⦄ ⦃admin : AdminNet M⦄ ⦃net : StorageNet N⦄ where
  unfoldable pub put_command : M → N → List Bytes → Outcome × M × N
  unfolding put_outcome
  put_command m n [] = (fail (codes "Usage: nimbus_cli put <chunk_id> <data>\n"), m, n)
  put_command m n (id ∷ []) = (fail (codes "Usage: nimbus_cli put <chunk_id> <data>\n"), m, n)
  put_command m n (id ∷ content ∷ rest) =
      let done = put m id content (pos 3) in (put_outcome done.0, done.1, n)

  unfoldable pub get_command : (N → N) → Table Bytes → M → N → List Bytes → Outcome × M × N
  unfolding get_outcome
  get_command sleep nodes m n [] = (fail (codes "Usage: nimbus_cli get <chunk_id>\n"), m, n)
  get_command sleep nodes m n (id ∷ rest) =
      let done = get sleep (record { node_addrs = nodes; storage_stubs = [] }) m n id 0 in
      (get_outcome done.0, done.2, done.3)

  unfoldable pub del_command : M → N → List Bytes → Outcome × M × N
  del_command m n [] = (fail (codes "Usage: nimbus_cli del <chunk_id>\n"), m, n)
  del_command m n (id ∷ rest) =
      let done = remove m id in
      (
        if done.0
            then succeed (codes "Deleted " ++ id ++ codes "\n")
            else fail (codes "DEL failed\n"),
        done.1,
        n,
      )

  unfoldable pub info_command : M → N → List Bytes → Outcome × M × N
  unfolding info_outcome
  info_command m n [] = (fail (codes "Usage: nimbus_cli info <chunk_id>\n"), m, n)
  info_command m n (id ∷ rest) =
      let called = coordinator.chunk_info m id in (info_outcome called.0, called.1, n)

  unfoldable pub add_command : M → N → List Bytes → Outcome × M × N
  unfolding change_outcome
  add_command m n [] = (fail (codes "Usage: nimbus_cli add-replica <chunk_id> <node_id>\n"), m, n)
  add_command m n (id ∷ []) =
      (fail (codes "Usage: nimbus_cli add-replica <chunk_id> <node_id>\n"), m, n)
  add_command m n (id ∷ node ∷ rest) =
      let called = admin.add_replica m id node in
      (
        change_outcome called.0
            (codes "Replica added: " ++ node ++ codes " -> " ++ id ++ codes "\n"),
        called.1,
        n,
      )

  unfoldable pub remove_command : M → N → List Bytes → Outcome × M × N
  unfolding change_outcome
  remove_command m n [] =
      (fail (codes "Usage: nimbus_cli remove-replica <chunk_id> <node_id>\n"), m, n)
  remove_command m n (id ∷ []) =
      (fail (codes "Usage: nimbus_cli remove-replica <chunk_id> <node_id>\n"), m, n)
  remove_command m n (id ∷ node ∷ rest) =
      let called = admin.remove_replica m id node in
      (
        change_outcome called.0
            (codes "Replica removed: " ++ node ++ codes " from " ++ id ++ codes "\n"),
        called.1,
        n,
      )

  -- The command and its arguments.
  unfoldable pub dispatch : (N → N) → Table Bytes → M → N → List Bytes → Outcome × M × N
  dispatch sleep nodes m n [] = (fail usage, m, n)
  dispatch sleep nodes m n (cmd ∷ args) =
      if same cmd (codes "put")
      then put_command m n args
      else if same cmd (codes "get")
      then get_command sleep nodes m n args
      else if same cmd (codes "del")
      then del_command m n args
      else if same cmd (codes "info")
      then info_command m n args
      else if same cmd (codes "add-replica")
      then add_command m n args
      else if same cmd (codes "remove-replica")
      then remove_command m n args
      else (fail (codes "Unknown command: " ++ cmd ++ codes "\n\n" ++ usage), m, n)

  -- The coordinator at the address that the flags give is `at` of it.
  unfoldable pub main : (N → N) → (Bytes → M) → N → List Bytes → Outcome × M × N
  unfolding parse_flags dispatch
  main sleep at n argv =
      let o = parse_flags default_options argv in
      dispatch sleep o.node_addrs (at o.meta_addr) n o.args
