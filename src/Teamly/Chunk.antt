-- ===== src/Teamly/Chunk.antt =====
-- teamly/src/lib/ai/chunk.ts: a text in overlapping pieces. `maxChars * 0.6` is three fifths of it.
pub mod Cover
use nastroyka_claude.Base.{
  ℕ, zero, suc, ◌+◌, ◌-◌, ◌*◌, Bool, true, false, ◌&&◌, Option, none, some, List, [], ◌∷◌, take,
  drop, length, Text, trim, if◌then◌else◌, ltb, leb, ◌==◌, min, max,
}
use nastroyka_claude.Teamly.Tiptap.{squeeze}

pub record ChunkOptions : Type 0 where
  pub max_chars : ℕ
  pub overlap : ℕ

abbrev pub default_options : ChunkOptions
default_options = record { max_chars = 500; overlap = 80 }

-- clean.lastIndexOf(' ', end), as the last space at or before `end` found so far.
unfoldable pub last_space : (end i : ℕ) → Option ℕ → Text → Option ℕ
last_space end i best [] = best
last_space end i best (c ∷ s) =
    last_space end (i + 1) (if c == 32 && leb i end then some i else best) s

-- The space is preferred where it is far enough from the start.
abbrev pub prefer : ChunkOptions → (start stop : ℕ) → Option ℕ → ℕ
prefer o start stop none = stop
prefer o start stop (some i) = if ltb (5 * start + 3 * o.max_chars) (5 * i) then i else stop

unfoldable pub end_of : ChunkOptions → Text → ℕ → ℕ
unfolding last_space
end_of o clean start =
    let stop = min (start + o.max_chars) (length clean) in
    if ltb stop (length clean) then prefer o start stop (last_space stop 0 none clean) else stop

-- The `while` loop: the starts and ends of the pieces. The start grows in every round, so as many
-- rounds as there are characters are enough.
unfoldable pub spans : ℕ → ChunkOptions → Text → ℕ → List (ℕ × ℕ)
spans zero o clean start = []
spans (suc fuel) o clean start =
    let stop = end_of o clean start in
    let later = spans fuel o clean (max (start + 1) (stop - o.overlap)) in
    if ltb start (length clean)
    then (start, stop) ∷ (if leb (length clean) stop then [] else later)
    else []

-- clean.slice(start, end).trim()
unfoldable pub piece : Text → ℕ × ℕ → Text
piece clean (start, stop) = trim (take (stop - start) (drop start clean))

abbrev pub add_piece : Text → List Text → List Text
add_piece [] ps = ps
add_piece (c ∷ p) ps = (c ∷ p) ∷ ps

unfoldable pub pieces : Text → List (ℕ × ℕ) → List Text
pieces clean [] = []
pieces clean (s ∷ ss) = add_piece (piece clean s) (pieces clean ss)

unfoldable pub chunks_of : ChunkOptions → Text → List Text
chunks_of o [] = []
chunks_of o (c ∷ s) =
    if leb (length (c ∷ s)) o.max_chars
    then (c ∷ s) ∷ []
    else pieces (c ∷ s) (spans (length (c ∷ s)) o (c ∷ s) 0)

unfoldable pub chunk_text : Text → ChunkOptions → List Text
unfolding squeeze
chunk_text t o = chunks_of o (trim (squeeze false t))
