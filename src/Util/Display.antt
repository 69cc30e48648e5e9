-- ===== src/Util/Display.antt =====
-- `DisplayBytes` of src/util.rs: bytes as they stand in a log.
use magic_wormhole_rs.Common.{
  ℕ, zero, suc, ◌≤◌, List, [], ◌∷◌, ◌++◌, Option, none, some, Bool, true, false, ◌&&◌, Bytes,
  length, leb, ltb, ◌==◌, bytes_eq, if◌then◌else◌, arith, Bool-cases, inl, inr,
}
use magic_wormhole_rs.Common.Decimal.{to_string}
use magic_wormhole_rs.Common.Text.{codes}

-- A JSON value: the entries of an object in the map's order, each value as its text, the length of an
-- array, or any other value.
pub data Json : Type 0 where
  object : List (Bytes × Bytes) → Json
  array : ℕ → Json
  scalar : Json

-- `hex::decode`, and the parser of serde_json; an error is `none`.
pub record Readers : Type 0 where
  pub hex_decode : Bytes → Option Bytes
  pub parse_json : Bytes → Option Json

within : ℕ → ℕ → ℕ → Bool
within lo hi x = leb lo x && leb x hi

-- The bytes that must follow a first byte: how many, and the range of the next one.
unfoldable pub lead : ℕ → Option (ℕ × ℕ × ℕ)
unfolding within
lead x =
    if ltb x 128
    then some (0, 0, 0)
    else if within 194 223 x
    then some (1, 128, 191)
    else if x == 224
    then some (2, 160, 191)
    else if x == 237
    then some (2, 128, 159)
    else if within 225 239 x
    then some (2, 128, 191)
    else if x == 240
    then some (3, 144, 191)
    else if within 241 243 x
    then some (3, 128, 191)
    else if x == 244
    then some (3, 128, 143)
    else none

-- `str::from_utf8`, with the number of bytes that are due and the range of the next one.
unfoldable pub utf8_from : ℕ → ℕ → ℕ → Bytes → Bool
unfolding lead within
utf8_from zero lo hi [] = true
utf8_from (suc due) lo hi [] = false
utf8_from zero lo hi (x ∷ xs) = elim (lead x) [
  | none ↦ false
  | some (due, low, high) ↦ utf8_from due low high xs
]
utf8_from (suc due) lo hi (x ∷ xs) = let rest = utf8_from due 128 191 xs in within lo hi x && rest

-- `replace('"', "\\\"")`
unfoldable pub escape : Bytes → Bytes
escape [] = []
escape (x ∷ xs) = let rest = escape xs in if x == 34 then 92 ∷ 34 ∷ rest else x ∷ rest

unfoldable pub is_continuation : ℕ → Bool
unfolding within
is_continuation x = within 128 191 x

-- `{:.15}`: the first characters of a text.
unfoldable pub take_chars : ℕ → Bytes → Bytes
unfolding is_continuation
take_chars n [] = []
take_chars zero (x ∷ xs) =
    let rest = take_chars zero xs in if is_continuation x then x ∷ rest else []
take_chars (suc n) (x ∷ xs) =
    let same = take_chars (suc n) xs in
    let fewer = take_chars n xs in if is_continuation x then x ∷ same else x ∷ fewer

quoted : Bytes → Bytes
quoted text = 34 ∷ (text ++ (34 ∷ []))

-- The end of `fmt`: the text, or its first 15 characters and `…`.
unfoldable pub shown : Bytes → Bytes
unfolding escape take_chars quoted
shown string =
    if ltb 20 (length string)
    then quoted (take_chars 15 (escape string) ++ (226 ∷ 128 ∷ 166 ∷ []))
    else quoted (escape string)

lookup : Bytes → List (Bytes × Bytes) → Option Bytes
lookup key [] = none
lookup key ((k, v) ∷ rest) = let later = lookup key rest in if bytes_eq k key then some v else later

typed : Bytes → List (Bytes × Bytes) → Option Bytes → Bytes
typed hex_param map (some type) =
    codes "<" ++ (hex_param ++ (codes "JSON dict of type '" ++ (type ++ codes "'>")))
typed hex_param map none =
    codes "<"
    ++ (hex_param ++ (codes "JSON dict with " ++ (to_string (length map) ++ codes " keys>")))

-- An object: by its only key, its type, or the number of its keys.
shown_object : Bytes → List (Bytes × Bytes) → Bytes
unfolding typed lookup
shown_object hex_param ((key, value) ∷ []) =
    codes "<" ++ (hex_param ++ (codes "JSON dict with key '" ++ (key ++ codes "'>")))
shown_object hex_param map = typed hex_param map (lookup (codes "type") map)

shown_text : Bytes → Bytes → Option Json → Bytes
unfolding shown shown_object
shown_text hex_param string (some (object map)) = shown_object hex_param map
shown_text hex_param string (some (array n)) =
    codes "<" ++ (hex_param ++ (codes "JSON array with " ++ (to_string n ++ codes " entry/ies>")))
shown_text hex_param string _ = shown string

module _ (readers : Readers) where
  -- What is shown of a string of bytes, after the attempt to decode it from hex.
  shown_bytes : Bytes → Bytes → Bytes
  unfolding utf8_from shown_text
  shown_bytes hex_param string =
      if utf8_from 0 0 0 string
      then shown_text hex_param string (readers.parse_json string)
      else codes "<" ++ (to_string (length string) ++ (codes " " ++ (hex_param ++ codes "bytes>")))

  -- `DisplayBytes::fmt`
  unfoldable pub display_bytes : Bytes → Bytes
  unfolding shown_bytes
  display_bytes bytes = elim (readers.hex_decode bytes) [
    | none ↦ shown_bytes [] bytes
    | some decoded_hex ↦ shown_bytes (codes "hex-encoded ") decoded_hex
  ]

-- How many characters begin in a text.
unfoldable pub count_chars : Bytes → ℕ
unfolding is_continuation
count_chars [] = 0
count_chars (x ∷ xs) = let rest = count_chars xs in if is_continuation x then rest else suc rest

-- Of a text that is cut, no more characters are shown than were asked for.
pub count_chars-take_chars : (n : ℕ) (s : Bytes) → count_chars (take_chars n s) ≤ n
unfolding count_chars take_chars
count_chars-take_chars n [] = omega arith
count_chars-take_chars zero (x ∷ xs) = elim (Bool-cases (is_continuation x)) [
  | inl inside ↦ rw (inside, take_chars, inside, count_chars) (count_chars-take_chars zero xs)
  | inr start ↦ rw (start, take_chars) (omega arith)
]
count_chars-take_chars (suc n) (x ∷ xs) = elim (Bool-cases (is_continuation x)) [
  | inl inside ↦ rw (inside, take_chars, inside, count_chars) (count_chars-take_chars (suc n) xs)
  | inr start ↦
      rw (start, take_chars, start, count_chars) (omega (arith, count_chars-take_chars n xs))
]
