-- ===== src/Recovery/Undo.antt =====
-- The puts behind the watermark, and the deletions that take them back.
use final_project_nimbusvaul.Base.{ℕ, ◌≡◌, ◌≢◌, refl, ap, List, [], ◌∷◌, ◌++◌, Bytes, pos, arith}
use final_project_nimbusvaul.Text.Split.Laws.{split-comma_list}
use final_project_nimbusvaul.Wal.{WalEntry, put_chunk}
use final_project_nimbusvaul.Coordinator.{NodeEntry}
use final_project_nimbusvaul.Apply.{put_payload}
use final_project_nimbusvaul.Apply.RoundTrip.{IsName, AreReplicas, items, split-put_payload}
use final_project_nimbusvaul.Recovery.{
  Deletion, deletions, cleanup_parts, cleanup_entry, cleanup_entries,
}

-- An entry behind the watermark: a put of a chunk on replicas, or an entry of another type.
pub data Behind : Type 0 where
  put_of : Bytes → ℕ → ℕ → ℕ → List Bytes → Behind
  other : Behind

abbrev pub IsBehind : Behind → WalEntry → Type 0
IsBehind (put_of id size rf version replicas) e =
    (e.type ≡ put_chunk)
    × (e.payload ≡ put_payload id size (pos rf) version replicas)
    × IsName id
    × AreReplicas replicas
IsBehind other e = e.type ≢ put_chunk

abbrev pub AreBehind : List Behind → List WalEntry → Type 0
AreBehind [] [] = Unit
AreBehind (b ∷ bs) (e ∷ es) = IsBehind b e × AreBehind bs es
AreBehind [] (e ∷ es) = ⊥
AreBehind (b ∷ bs) [] = ⊥

module _ {F : Type 0} where
  -- One deletion for each replica of each put, in order.
  unfoldable pub taken_back : List (NodeEntry F) → List Behind → List Deletion
  taken_back alive [] = []
  taken_back alive (put_of id size rf version replicas ∷ bs) =
      deletions alive id replicas ++ taken_back alive bs
  taken_back alive (other ∷ bs) = taken_back alive bs

  cleanup-put :
      (alive : List (NodeEntry F)) (e : WalEntry) (id : Bytes) (size rf version : ℕ)
      (replicas : List Bytes)
      → IsBehind (put_of id size rf version replicas) e
      → cleanup_entry alive e ≡ deletions alive id replicas
  unfolding cleanup_entry cleanup_parts
  cleanup-put alive e id size rf version replicas (typed, shape, hn, hr) =
      rw (typed, cleanup_entry, shape, split-put_payload id size rf version replicas hn hr)
        (ap (deletions alive id) (split-comma_list replicas (items replicas hr.each)))

  cleanup-other :
      (alive : List (NodeEntry F)) (e : WalEntry) → e.type ≢ put_chunk → cleanup_entry alive e ≡ []
  unfolding cleanup_entry
  cleanup-other alive e ne = ground arith

  pub cleanup_entries-taken_back :
      (alive : List (NodeEntry F)) (bs : List Behind) (es : List WalEntry)
      → AreBehind bs es
      → cleanup_entries alive es ≡ taken_back alive bs
  unfolding cleanup_entries taken_back
  cleanup_entries-taken_back alive [] [] h = refl
  cleanup_entries-taken_back alive [] (e ∷ es) h = absurd h
  cleanup_entries-taken_back alive (b ∷ bs) [] h = absurd h
  cleanup_entries-taken_back alive (put_of id size rf version replicas ∷ bs) (e ∷ es) h =
      let one = cleanup-put alive e id size rf version replicas h.0 in
      let rest = cleanup_entries-taken_back alive bs es h.1 in λ i. one i ++ rest i
  cleanup_entries-taken_back alive (other ∷ bs) (e ∷ es) h =
      let one = cleanup-other alive e h.0 in
      let rest = cleanup_entries-taken_back alive bs es h.1 in λ i. one i ++ rest i
