-- ===== src/Examples/Clients.antt =====
-- Theorems of the client library and of the repair of replicas, applied.
use final_project_nimbusvaul.Base.{
  ℕ, ◌-◌, ◌≡◌, ◌≢◌, refl, Bool, true, false, [], none, some, Bytes, codes, same, ◌==◌,
  if◌then◌else◌, arith, ◌⊎◌, inl,
}
use final_project_nimbusvaul.Base.Table.{find}
use final_project_nimbusvaul.Rocks.Memory.{memory}
use final_project_nimbusvaul.Replicas.{StorageNet}
use final_project_nimbusvaul.StorageRpc.{messages}
use final_project_nimbusvaul.Client.{
  Client, replied, MetaNet, ChunkInfoResp, parse_replica_entry, get, target_of,
  build_replica_try_list, get_failed,
}
use final_project_nimbusvaul.Client.Get.{ComesUp, GivesAddress, get-finds_replica}
use final_project_nimbusvaul.Client.Honest.{get-honest}
use final_project_nimbusvaul.ChunkRpc.{has_replica_node}
use final_project_nimbusvaul.Examples.{chunk}

-- Storage nodes that answer reads only after as many pauses as the number says.
abbrev pub waking : StorageNet ℕ
waking = record {
  write_rpc = λ n addr id version content. (true, n);
  fetch_rpc = λ n addr id version. ((messages version (codes "x"), true), n);
  read_rpc = λ n addr id version. (if n == 0 then some (codes "x", version) else none, n);
  delete_rpc = λ n addr id. n;
}

abbrev pub pause : ℕ → ℕ
pause n = n - 1

abbrev pub chunk_resp : ChunkInfoResp
chunk_resp = record { ok = true; error = []; meta = chunk }

-- A coordinator that knows one chunk.
abbrev pub one_chunk : MetaNet Unit
one_chunk = record {
  put_chunk =
      λ m req. (replied (record { ok = true; error = []; version = 1; replica_set = [] }), m);
  chunk_info = λ m id. (replied chunk_resp, m);
  delete_chunk = λ m id. (replied true, m);
}

abbrev pub no_stubs : Client
no_stubs = record { node_addrs = []; storage_stubs = [] }

wakes : (n : ℕ) → n ≡ 0 → (waking.read_rpc n (codes "h") (codes "c") 3).0 ≢ none
wakes n e = ground arith

abbrev waking_comes_up : ComesUp ⦃net = waking⦄ (λ n. Unit) pause (codes "h") (codes "c") 3
waking_comes_up = record {
  delay = λ n. n;
  reads = λ n other u. (tt, omega arith);
  sleeps = λ n u. (tt, omega arith);
  answers = λ n u. wakes n;
}

gives_h : GivesAddress (codes "n") (codes "h") (codes "n=h")
unfolding parse_replica_entry
gives_h named = refl

get-finds_replica_example :
    (get ⦃net = waking⦄ ⦃coordinator = one_chunk⦄ pause no_stubs tt 2 (codes "c") 0).0.ok ≡ true
unfolding build_replica_try_list same target_of
get-finds_replica_example =
    get-finds_replica ⦃net = waking⦄ ⦃coordinator = one_chunk⦄ pause no_stubs tt 2 (codes "c")
      (codes "n") (codes "h") 0 chunk_resp (λ n. Unit) refl refl (unfold has_replica_node in refl)
      (gives_h, tt) (λ e. absurd (cc)) (inl (unfold find in refl)) waking_comes_up tt (omega arith)

answer_x :
    (b : Bool) (found : Bytes × ℕ)
    → (if b then some (codes "x", 3) else none) ≡ some found
    → found.0 ≡ codes "x"
answer_x true found e = first_of e
  where
    first_of : {x y : Bytes × ℕ} → some x ≡ some y → y.0 ≡ x.0
    first_of q = cc
answer_x false found e = absurd (cc)

get-honest_example :
    let r = (get ⦃net = waking⦄ ⦃coordinator = one_chunk⦄ pause no_stubs tt 2 (codes "c") 3).0 in
    ((r.ok ≡ true) × (r.content ≡ codes "x")) ⊎ (r ≡ get_failed (codes "all replicas failed"))
unfolding target_of
get-honest_example =
    get-honest ⦃net = waking⦄ ⦃coordinator = one_chunk⦄ pause no_stubs tt 2 (codes "c") 3 chunk_resp
      (λ n. Unit) (λ found. found.0 ≡ codes "x") refl refl tt
      (record {
        reads = λ n addr here. tt;
        sleeps = λ n here. tt;
        honest = λ n addr found here e. answer_x (n == 0) found e;
      })
