-- ===== src/Stream.antt =====
-- The streams of FetchChunk in src/storage/storage_rpc.cpp and of InstallSnapshot in
-- src/meta/meta_rpc.cpp, and the reader's loop in reconfig_driver.cpp.
pub mod Laws
use final_project_nimbusvaul.Base.{
  ℕ, zero, suc, Bool, true, false, List, [], ◌∷◌, ◌++◌, Bytes, leb, if◌then◌else◌, length, take,
  drop,
}

-- One message: its data, the version or snapshot it belongs to, and whether it is the last.
pub record Piece : Type 0 where
  pub content : Bytes
  pub stamp : ℕ
  pub is_last : Bool

abbrev pub piece_size : ℕ
piece_size = 65536

-- The loop over what is left; `fuel` of the data's length is enough.
unfoldable pub pieces : ℕ → ℕ → ℕ → Bytes → List Piece
pieces size stamp zero rest = []
pieces size stamp (suc fuel) [] = []
pieces size stamp (suc fuel) (b ∷ rest) =
    (record {
      content = take size (b ∷ rest);
      stamp = stamp;
      is_last = leb (length (b ∷ rest)) size;
    })
    ∷ pieces size stamp fuel (drop size (b ∷ rest))

unfoldable pub stream : ℕ → Bytes → List Piece
unfolding pieces
stream stamp s = pieces piece_size stamp (length s) s

-- `while (reader->Read(&cd)) { assembled += cd.data(); if (cd.is_last()) break; }`
unfoldable pub assemble : List Piece → Bytes
assemble [] = []
assemble (p ∷ ps) = let more = assemble ps in if p.is_last then p.content else p.content ++ more
