-- ===== src/Domain/Json.antt =====
-- The `unknown` values of domain/types.ts (run inputs and outputs, step contents, audit meta): plain
-- JSON data, with `String(v)`, `JSON.stringify(v)` and property access as JavaScript has them.
use Prim.Native.Nat.{ℕ, ◌+◌, ◌/◌, ◌%◌}
use nastroyka_claude.Base.{
  Bool, true, false, ◌&&◌, ◌||◌, Option, none, some, [], ◌∷◌, ◌++◌, Text, text, eq_text, ltb, leb,
  ◌==◌, if◌then◌else◌,
}

-- A number is kept as the text that JavaScript prints for it; an absent value (`undefined`) is
-- `none` of an `Option` around this type.
mutual
  pub data Json : Type 0 where
    null : Json
    bool : Bool → Json
    num : Text → Json
    str : Text → Json
    arr : Items → Json
    obj : Fields → Json

  pub data Items : Type 0 where
    nil : Items
    cons : Json → Items → Items

  pub data Fields : Type 0 where
    end : Fields
    field : Text → Json → Fields → Fields

abbrev pub get_field : Text → Fields → Option Json
get_field k end = none
get_field k (field j v fs) = if eq_text j k then some v else get_field k fs

-- v.k, where v may be no object
abbrev pub prop : Text → Json → Option Json
prop k (obj fs) = get_field k fs
prop k _ = none

abbrev pub is_true : Option Json → Bool
is_true (some (bool b)) = b
is_true _ = false

abbrev hex_digit : ℕ → ℕ
hex_digit d = if ltb d 10 then 48 + d else 87 + d

abbrev hex4 : ℕ → Text
hex4 c =
    hex_digit (c / 4096 % 16)
    ∷ hex_digit (c / 256 % 16)
    ∷ hex_digit (c / 16 % 16)
    ∷ hex_digit (c % 16)
    ∷ []

-- One unit inside a JSON string. A lone surrogate is escaped too: `quote_units` passes pairs by.
quote_unit : ℕ → Text
quote_unit c =
    if c == 34 || c == 92
    then 92 ∷ c ∷ []
    else if c == 8
    then text "\\b"
    else if c == 9
    then text "\\t"
    else if c == 10
    then text "\\n"
    else if c == 12
    then text "\\f"
    else if c == 13
    then text "\\r"
    else if ltb c 32 || (leb 0xd800 c && leb c 0xdfff)
    then text "\\u" ++ hex4 c
    else c ∷ []

abbrev is_pair : ℕ → ℕ → Bool
is_pair c d = leb 0xd800 c && leb c 0xdbff && leb 0xdc00 d && leb d 0xdfff

quote_units : Text → Text
unfolding quote_unit
quote_units [] = []
quote_units (c ∷ []) = quote_unit c
quote_units (c ∷ d ∷ s) =
    let pair = c ∷ d ∷ quote_units s in
    let one = quote_unit c ++ quote_units (d ∷ s) in if is_pair c d then pair else one

pub quote : Text → Text
unfolding quote_units
quote s = 34 ∷ (quote_units s ++ (34 ∷ []))

unfoldable mutual
  unfolding quote

  -- JSON.stringify(v)
  pub stringify : Json → Text
  stringify null = text "null"
  stringify (bool true) = text "true"
  stringify (bool false) = text "false"
  stringify (num n) = n
  stringify (str s) = quote s
  stringify (arr xs) = 91 ∷ (stringify_items xs ++ (93 ∷ []))
  stringify (obj fs) = 123 ∷ (stringify_fields fs ++ (125 ∷ []))

  pub stringify_items : Items → Text
  stringify_items nil = []
  stringify_items (cons x nil) = stringify x
  stringify_items (cons x (cons y xs)) = stringify x ++ (44 ∷ stringify_items (cons y xs))

  pub stringify_fields : Fields → Text
  stringify_fields end = []
  stringify_fields (field k v end) = quote k ++ (58 ∷ stringify v)
  stringify_fields (field k v (field l w fs)) =
      quote k ++ (58 ∷ (stringify v ++ (44 ∷ stringify_fields (field l w fs))))

unfoldable mutual
  -- String(v)
  pub to_text : Json → Text
  to_text null = text "null"
  to_text (bool true) = text "true"
  to_text (bool false) = text "false"
  to_text (num n) = n
  to_text (str s) = s
  to_text (arr xs) = to_text_items xs
  to_text (obj fs) = text "[object Object]"

  -- `null` prints as nothing inside an array.
  pub to_text_items : Items → Text
  to_text_items nil = []
  to_text_items (cons null nil) = []
  to_text_items (cons x nil) = to_text x
  to_text_items (cons null (cons y xs)) = 44 ∷ to_text_items (cons y xs)
  to_text_items (cons x (cons y xs)) = to_text x ++ (44 ∷ to_text_items (cons y xs))
