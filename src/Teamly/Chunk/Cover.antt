-- ===== src/Teamly/Chunk/Cover.antt =====
-- teamly/src/lib/ai/chunk.ts: the pieces, and the positions in the text that they take.
use nastroyka_claude.Base.{
  leb→le, ℕ, zero, suc, ◌+◌, ◌-◌, ◌≤◌, ◌<◌, ◌≡◌, refl, Bool, true, false, Option, none, some, List,
  [], ◌∷◌, take, drop, length, Text, All, if◌then◌else◌, ltb, leb, min, max, arith, tests, lt→ltb,
  ltb→lt, ◌⊎◌, inl, inr, length-take, Bool-cases,
}
use nastroyka_claude.Teamly.Tiptap.{length-trim-le}
use nastroyka_claude.Teamly.Chunk.{
  ChunkOptions, end_of, prefer, last_space, spans, piece, add_piece, pieces, chunks_of, chunk_text,
}

prefer_bounds :
    (o : ChunkOptions) (start stop len : ℕ) (i : Option ℕ)
    → stop ≡ min (start + o.max_chars) len
    → start < len
    → 0 < o.max_chars
    → start < prefer o start stop i
prefer_bounds o start stop len none e lt pos = grind (arith)
prefer_bounds o start stop len (some i) e lt pos = grind tests

end_of-gt :
    (o : ChunkOptions) (clean : Text) (start : ℕ)
    → start < length clean
    → 0 < o.max_chars
    → start < end_of o clean start
unfolding end_of
end_of-gt o clean start lt pos = ground (
  arith,
  prefer_bounds o start (min (start + o.max_chars) (length clean)) (length clean)
      (last_space (min (start + o.max_chars) (length clean)) 0 none clean) refl,
)

-- Some span holds the place.
abbrev pub Covers : ℕ → List (ℕ × ℕ) → Type 0
Covers i [] = ⊥
Covers i (s ∷ ss) = ((s.0 ≤ i) × (i < s.1)) ⊎ Covers i ss

spans_cover :
    (fuel : ℕ) (o : ChunkOptions) (clean : Text) (start i : ℕ)
    → 0 < o.max_chars
    → length clean ≤ start + fuel
    → start ≤ i
    → i < length clean
    → Covers i (spans fuel o clean start)
unfolding spans
spans_cover zero o clean start i pos enough from to = absurd (omega arith)
spans_cover (suc fuel) o clean start i pos enough from to =
    let inside : start < length clean = omega arith in
    let grows = end_of-gt o clean start inside pos in
    rw (lt→ltb start (length clean) inside) (elim (Bool-cases (ltb i (end_of o clean start))) [
      | inl e ↦ inl (from, ltb→lt i (end_of o clean start) e)
      | inr e ↦
          let unfinished : leb (length clean) (end_of o clean start) ≡ false = ground arith in
          let past : end_of o clean start ≤ i = ground arith in
          rw unfinished (
            inr (
              spans_cover fuel o clean (max (start + 1) (end_of o clean start - o.overlap)) i pos
                (omega arith) (omega arith) to))
    ])

-- With a positive piece size the loop reaches every place of the text: each lies between the start
-- and the end of a piece.
pub chunk_spans_cover :
    (o : ChunkOptions) (clean : Text) (i : ℕ)
    → 0 < o.max_chars
    → i < length clean
    → Covers i (spans (length clean) o clean 0)
chunk_spans_cover o clean i pos to =
    spans_cover (length clean) o clean 0 i pos (omega arith) (omega arith) to

abbrev IsAtMost : ℕ → Option ℕ → Type 0
IsAtMost n none = Unit
IsAtMost n (some i) = i ≤ n

last_space-IsAtMost :
    (end i : ℕ) (best : Option ℕ) (s : Text)
    → IsAtMost end best
    → IsAtMost end (last_space end i best s)
unfolding last_space
last_space-IsAtMost end i best [] h = h
last_space-IsAtMost end i best (c ∷ s) h = last_space-IsAtMost end (i + 1) _ s (ground (arith, h))

prefer-le :
    (o : ChunkOptions) (start stop : ℕ) (i : Option ℕ)
    → IsAtMost stop i
    → prefer o start stop i ≤ stop
prefer-le o start stop none h = omega arith
prefer-le o start stop (some i) h = ground arith

end_of-le :
    (o : ChunkOptions) (clean : Text) (start : ℕ) → end_of o clean start ≤ start + o.max_chars
unfolding end_of
end_of-le o clean start =
    let stop : ℕ = min (start + o.max_chars) (length clean) in
    ground (
      arith,
      prefer-le o start stop (last_space stop 0 none clean)
          (last_space-IsAtMost stop 0 none clean tt),
    )

abbrev pub IsPiece : ChunkOptions → Text → Type 0
IsPiece o p = (0 < length p) × (length p ≤ o.max_chars)

abbrev IsShort : ChunkOptions → ℕ × ℕ → Type 0
IsShort o s = s.1 ≤ s.0 + o.max_chars

All-if :
    {A : Type 0} (P : A → Type 0) (b : Bool) (xs ys : List A)
    → All P xs
    → All P ys
    → All P (if b then xs else ys)
All-if P true xs ys h k = h
All-if P false xs ys h k = k

spans-IsShort :
    (fuel : ℕ) (o : ChunkOptions) (clean : Text) (start : ℕ)
    → All (IsShort o) (spans fuel o clean start)
unfolding spans
spans-IsShort zero o clean start = tt
spans-IsShort (suc fuel) o clean start =
    let later = spans-IsShort fuel o clean (max (start + 1) (end_of o clean start - o.overlap)) in
    All-if (IsShort o) (ltb start (length clean)) _ []
      (
        end_of-le o clean start,
        All-if (IsShort o) (leb (length clean) (end_of o clean start)) [] _ tt later,
      )
      tt

length-piece-le : (clean : Text) (s : ℕ × ℕ) → length (piece clean s) ≤ s.1 - s.0
unfolding piece
length-piece-le clean (start, stop) = omega (
  arith,
  length-trim-le (take (stop - start) (drop start clean)),
  length-take (stop - start) (drop start clean),
)

add_piece-IsPiece :
    (o : ChunkOptions) (p : Text) (ps : List Text)
    → length p ≤ o.max_chars
    → All (IsPiece o) ps
    → All (IsPiece o) (add_piece p ps)
add_piece-IsPiece o [] ps h k = k
add_piece-IsPiece o (c ∷ p) ps h k = ((omega arith, h), k)

pieces-IsPiece :
    (o : ChunkOptions) (clean : Text) (ss : List (ℕ × ℕ))
    → All (IsShort o) ss
    → All (IsPiece o) (pieces clean ss)
unfolding pieces
pieces-IsPiece o clean [] h = tt
pieces-IsPiece o clean (s ∷ ss) h =
    add_piece-IsPiece o (piece clean s) (pieces clean ss)
      (omega (arith, h.0, length-piece-le clean s)) (pieces-IsPiece o clean ss h.1)

chunks_of-IsPiece : (o : ChunkOptions) (clean : Text) → All (IsPiece o) (chunks_of o clean)
unfolding chunks_of
chunks_of-IsPiece o [] = tt
chunks_of-IsPiece o (c ∷ s) = elim (Bool-cases (leb (length (c ∷ s)) o.max_chars)) [
  | inl e ↦ rw e ((omega arith, leb→le _ _ e), tt)
  | inr e ↦ rw e (pieces-IsPiece o (c ∷ s) _ (spans-IsShort (length (c ∷ s)) o (c ∷ s) 0))
]

-- No chunk of a text is empty, and none is longer than the limit.
pub chunk_text-IsPiece : (t : Text) (o : ChunkOptions) → All (IsPiece o) (chunk_text t o)
unfolding chunk_text
chunk_text-IsPiece t o = chunks_of-IsPiece o _
