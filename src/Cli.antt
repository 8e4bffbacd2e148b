-- ===== src/Cli.antt =====
-- src/bin/nimbus_cli.cpp: the flags and commands of the command line client.
pub mod Commands
pub mod Flags
use final_project_nimbusvaul.Base.{
  ℕ, zero, suc, Bool, true, false, List, [], ◌∷◌, ◌++◌, Option, none, some, Bytes, codes, same,
  if◌then◌else◌, pos, length,
}
use final_project_nimbusvaul.Base.Table.{Table, insert}
use final_project_nimbusvaul.Text.Decimal.{to_string, int_to_string}
use final_project_nimbusvaul.Text.Split.{split_fields, split_eq}
use final_project_nimbusvaul.Coordinator.{ChunkEntry, ChunkConfigState, stable, transitioning}
use final_project_nimbusvaul.ChunkStore.{strip}
use final_project_nimbusvaul.Replicas.{StorageNet}
use final_project_nimbusvaul.Client.{
  Client, Call, broken, replied, MetaNet, ChunkInfoResp, PutResult, GetResult, put, get, remove,
}

unfoldable pub add_nodes : Table Bytes → List Bytes → Table Bytes
unfolding split_eq
add_nodes out [] = out
add_nodes out (item ∷ items) = elim (split_eq item) [
  | none ↦ add_nodes out items
  | some (node_id, addr) ↦ add_nodes (insert node_id addr out) items
]

-- `std::getline` at each ',' gives the fields, the last one only if it is not empty.
unfoldable pub parse_nodes : Bytes → Table Bytes
unfolding add_nodes split_fields
parse_nodes s = add_nodes [] (split_fields s b',')

-- `meta_addr`, `node_addrs`, and the arguments from the command on.
pub record Options : Type 0 where
  pub meta_addr : Bytes
  pub node_addrs : Table Bytes
  pub args : List Bytes

abbrev pub default_options : Options
default_options = record { meta_addr = codes "127.0.0.1:9100"; node_addrs = []; args = [] }

-- A flag with its value behind '='; `none` is the command.
unfoldable pub joined_flag : Options → Bytes → Option Options
unfolding parse_nodes strip
joined_flag o a = elim (strip (codes "--meta=") a) [
  | some addr ↦ some (record o { meta_addr = addr })
  | none ↦ elim (strip (codes "--nodes=") a) [
    | some nodes ↦ some (record o { node_addrs = parse_nodes nodes })
    | none ↦ none
  ]
]

-- A flag with its value in the next argument.
unfoldable pub spaced_flag : Options → Bytes → Bytes → Option Options
unfolding parse_nodes
spaced_flag o a v =
    if same a (codes "--meta")
    then some (record o { meta_addr = v })
    else if same a (codes "--nodes")
    then some (record o { node_addrs = parse_nodes v })
    else none

-- The loop over the arguments behind the program's name.
unfoldable pub parse_flags : Options → List Bytes → Options
unfolding joined_flag spaced_flag
parse_flags o [] = record o { args = [] }
parse_flags o (a ∷ []) = elim (joined_flag o a) [
  | some o' ↦ record o' { args = [] }
  | none ↦ record o { args = a ∷ [] }
]
parse_flags o (a ∷ v ∷ args) = elim (spaced_flag o a v) [
  | some o' ↦ parse_flags o' args
  | none ↦ elim (joined_flag o a) [
    | some o' ↦ parse_flags o' (v ∷ args)
    | none ↦ record o { args = a ∷ v ∷ args }
  ]
]
