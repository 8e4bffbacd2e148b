-- ===== src/Stream/Laws.antt =====
-- A stream carries its data: the reader puts together what was sent.
use final_project_nimbusvaul.Base.{
  ℕ, zero, suc, ◌≡◌, ◌≤◌, ◌<◌, refl, ap, [], ◌∷◌, ◌++◌, Bytes, leb, if◌then◌else◌, length, take,
  drop, arith, take-append-drop, length-drop, length-take, All,
}
use final_project_nimbusvaul.Stream.{Piece, pieces, stream, assemble, piece_size}

take_all : (n : ℕ) (s : Bytes) → length s ≤ n → take n s ≡ s
take_all zero [] h = refl
take_all zero (b ∷ s) h = absurd (omega arith)
take_all (suc n) [] h = refl
take_all (suc n) (b ∷ s) h = ap (λ t. b ∷ t) (take_all n s (omega arith))

assemble_step :
    (size fuel : ℕ) (s rest : Bytes)
    → rest ≡ drop size s
    → (if leb (length s) size then take size s else take size s ++ rest) ≡ s
assemble_step size fuel s rest e = ground (arith, e, take_all size s, take-append-drop size s)

assemble-pieces :
    (size stamp fuel : ℕ) (s : Bytes)
    → 0 < size
    → length s ≤ fuel
    → assemble (pieces size stamp fuel s) ≡ s
unfolding assemble pieces
assemble-pieces size stamp zero [] pos h = refl
assemble-pieces size stamp zero (b ∷ s) pos h = absurd (omega arith)
assemble-pieces size stamp (suc fuel) [] pos h = refl
assemble-pieces size stamp (suc fuel) (b ∷ s) pos h = assemble_step size fuel (b ∷ s) _ (
    assemble-pieces size stamp fuel (drop size (b ∷ s)) pos
      (omega (arith, length-drop size (b ∷ s))))

-- Reading a stream to its last message gives back the data that was streamed, whatever its
-- length.
pub assemble-stream : (stamp : ℕ) (s : Bytes) → assemble (stream stamp s) ≡ s
unfolding stream
assemble-stream stamp s = assemble-pieces piece_size stamp (length s) s (omega arith) (omega arith)

-- A message of a stream: not empty, within the size limit, and stamped.
abbrev pub IsPiece : ℕ → Piece → Type 0
IsPiece stamp p = (0 < length p.content) × (length p.content ≤ piece_size) × (p.stamp ≡ stamp)

pieces_bounded : (stamp fuel : ℕ) (s : Bytes) → All (IsPiece stamp) (pieces piece_size stamp fuel s)
unfolding pieces
pieces_bounded stamp zero s = tt
pieces_bounded stamp (suc fuel) [] = tt
pieces_bounded stamp (suc fuel) (b ∷ s) = (
  (
    omega (arith, length-take piece_size (b ∷ s)),
    omega (arith, length-take piece_size (b ∷ s)),
    refl,
  ),
  pieces_bounded stamp fuel (drop piece_size (b ∷ s)),
)

-- No message of a stream is empty or larger than 64 KiB, and each carries the stamp.
pub stream_bounded : (stamp : ℕ) (s : Bytes) → All (IsPiece stamp) (stream stamp s)
unfolding stream
stream_bounded stamp s = pieces_bounded stamp (length s) s
