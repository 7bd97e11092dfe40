-- ===== src/Teamly/Tiptap.antt =====
-- teamly/src/lib/tiptap.ts: the plain text of a rich document, which is JSON.
use nastroyka_claude.Base.{
  ℕ, ◌+◌, ◌≤◌, ◌≡◌, refl, Bool, true, false, not, Option, some, List, [], ◌∷◌, ◌++◌, take, length,
  Text, text, eq_text, mem_text, is_space, trim, trim_end, join, arith, if◌then◌else◌, leb,
  length-append, trim_start, length-take,
}
use mathlib.Core.List.{reverse, reverse-append}
use nastroyka_claude.Domain.Json.{
  Json, Items, nil, cons, Fields, null, bool, num, str, arr, obj, end, field, get_field,
}

-- BLOCK_TYPES
abbrev pub block_types : List Text
block_types =
    text "paragraph" ∷ text "heading" ∷ text "listItem" ∷ text "blockquote" ∷ text "codeBlock" ∷ []

abbrev is_block : Option Json → Bool
is_block (some (str t)) = mem_text t block_types
is_block _ = false

abbrev text_of : Option Json → List Text
text_of (some (str t)) = t ∷ []
text_of _ = []

abbrev line_break : Bool → List Text
line_break true = text "\n" ∷ []
line_break false = []

-- The parts that `walk` pushes for a node; the first argument of the others says whether the node is
-- a block.
unfoldable mutual
  pub walk : Json → List Text
  walk (obj fs) =
      text_of (get_field (text "text") fs)
      ++ walk_content (is_block (get_field (text "type") fs)) fs
  walk null = []
  walk (bool b) = []
  walk (num n) = []
  walk (str t) = []
  walk (arr xs) = []

  pub walk_content : Bool → Fields → List Text
  walk_content block end = []
  walk_content block (field k v fs) =
      let here = walk_children block v in
      let later = walk_content block fs in if eq_text k (text "content") then here else later

  pub walk_children : Bool → Json → List Text
  walk_children block (arr xs) = walk_items xs ++ line_break block
  walk_children block null = []
  walk_children block (bool b) = []
  walk_children block (num n) = []
  walk_children block (str t) = []
  walk_children block (obj fs) = []

  pub walk_items : Items → List Text
  walk_items nil = []
  walk_items (cons x xs) = walk x ++ walk_items xs

-- s.replace(/\s+/g, ' '); the flag says that a run of white space has begun.
unfoldable pub squeeze : Bool → Text → Text
squeeze inside [] = []
squeeze inside (c ∷ s) =
    let rest = squeeze (is_space c) s in
    if not (is_space c) then c ∷ rest else if inside then rest else 32 ∷ rest

unfoldable pub extract_text : Json → Text
unfolding walk squeeze
extract_text doc = trim (squeeze false (join (text " ") (walk doc)))

unfoldable pub preview_text : Json → ℕ → Text
preview_text doc max =
    if leb (length (extract_text doc)) max
    then extract_text doc
    else trim_end (take max (extract_text doc)) ++ text "…"

length-reverse : (s : Text) → length (reverse s) ≡ length s
length-reverse [] = refl
length-reverse (c ∷ s) =
    rw (reverse-append (c ∷ []) s)
      (omega (arith, length-reverse s, length-append (reverse s) (c ∷ [])))

pub length-trim_start-le : (s : Text) → length (trim_start s) ≤ length s
unfolding trim_start
length-trim_start-le [] = omega arith
length-trim_start-le (c ∷ s) = ground (arith, length-trim_start-le s)

pub length-trim_end-le : (s : Text) → length (trim_end s) ≤ length s
unfolding trim_end
length-trim_end-le s = omega (
  arith,
  length-reverse (trim_start (reverse s)),
  length-reverse s,
  length-trim_start-le (reverse s),
)

pub length-trim-le : (s : Text) → length (trim s) ≤ length s
unfolding trim
length-trim-le s = omega (arith, length-trim_end-le (trim_start s), length-trim_start-le s)

-- A preview is at most one character longer than its limit.
pub length-preview_text-le : (doc : Json) (max : ℕ) → length (preview_text doc max) ≤ max + 1
unfolding preview_text
length-preview_text-le doc max = ground (
  arith,
  length-append (trim_end (take max (extract_text doc))) (text "…"),
  length-trim_end-le (take max (extract_text doc)),
  length-take max (extract_text doc),
)
