-- ===== src/Core/Json.antt =====
-- `serde_json::Value`, and how the derived readers of serde take one apart. A string is
-- the bytes of its UTF-8. An object has its entries in the order of the text. A derived reader refuses
-- a key of a field that repeats; a `Value` is left as it stands in the text, where serde_json sorts
-- its keys and keeps the last of those that repeat.
-- An array in place of an object, which serde takes for a struct, is refused here.
pub mod Laws
pub mod Text
use magic_wormhole_rs.Common.{
  ℕ, zero, suc, ◌^◌, List, [], ◌∷◌, Option, none, some, Bool, true, false, ◌&&◌, Bytes, ltb,
  bytes_eq, if◌then◌else◌,
}

mutual
  pub data Json : Type 0 where
    null : Json
    boolean : Bool → Json
    -- An unsigned 64-bit integer.
    number : ℕ → Json
    -- A number that is negative, has a fraction or is out of range, as its text.
    other_number : Bytes → Json
    string : Bytes → Json
    array : Elements → Json
    object : Entries → Json

  pub data Elements : Type 0 where
    nil : Elements
    cons : Json → Elements → Elements

  pub data Entries : Type 0 where
    end : Entries
    entry : Bytes → Json → Entries → Entries

-- The `?` of a reader.
module _ {ℓ κ} {A : Type ℓ} {B : Type κ} where
  infixl 5 ◌>>=◌
  abbrev pub ◌>>=◌ : Option A → (A → Option B) → Option B
  none >>= f = none
  some a >>= f = f a

unfoldable pub has_key : Bytes → Entries → Bool
has_key key end = false
has_key key (entry k v es) = let rest = has_key key es in if bytes_eq k key then true else rest

-- The value of a field that must be there, once.
unfoldable pub field : Bytes → Entries → Option Json
unfolding has_key
field key end = none
field key (entry k v es) =
    let rest = field key es in
    let again = has_key key es in if bytes_eq k key then (if again then none else some v) else rest

unfoldable pub repeats : Bytes → Entries → Bool
unfolding has_key
repeats key end = false
repeats key (entry k v es) =
    let rest = repeats key es in
    let again = has_key key es in if bytes_eq k key then again else rest

-- The value of a field that may be missing, but not repeat.
unfoldable pub optional_field : Bytes → Entries → Option (Option Json)
unfolding repeats field
optional_field key es = if repeats key es then none else some (field key es)

unfoldable pub read_object : Json → Option Entries
read_object (object es) = some es
read_object _ = none

-- `String`, and the newtypes over it that are transparent.
unfoldable pub read_string : Json → Option Bytes
read_string (string s) = some s
read_string _ = none

-- An unsigned integer type, by one more than its largest value.
unfoldable pub read_number : ℕ → Json → Option ℕ
read_number limit (number n) = if ltb n limit then some n else none
read_number limit _ = none

-- An optional field: `none` where it is missing or null.
abbrev pub read_option {ℓ} : {A : Type ℓ} → (Json → Option A) → Option Json → Option (Option A)
read_option read none = some none
read_option read (some null) = some none
read_option read (some v) = read v >>= λ a. some (some a)

-- `Vec<T>`
abbrev pub read_elements {ℓ} : {A : Type ℓ} → (Json → Option A) → Elements → Option (List A)
read_elements read nil = some []
read_elements read (cons v vs) = read v >>= λ a. read_elements read vs >>= λ xs. some (a ∷ xs)

abbrev pub read_array {ℓ} : {A : Type ℓ} → (Json → Option A) → Json → Option (List A)
read_array read (array vs) = read_elements read vs
read_array read _ = none

-- The elements that are written for a `Vec<T>`.
abbrev pub write_elements {ℓ} : {A : Type ℓ} → (A → Json) → List A → Elements
write_elements write [] = nil
write_elements write (a ∷ xs) = cons (write a) (write_elements write xs)

-- What serde_json reads back from the text that it writes: numbers that are unsigned integers in
-- range, and at most as many objects and arrays inside each other as its parser allows.
unfoldable mutual
  pub fits : ℕ → Json → Bool
  fits depth (number n) = ltb n (2 ^ 64)
  fits depth (other_number s) = false
  fits zero (array vs) = false
  fits (suc depth) (array vs) = fits_elements depth vs
  fits zero (object es) = false
  fits (suc depth) (object es) = fits_entries depth es
  fits depth _ = true

  pub fits_elements : ℕ → Elements → Bool
  fits_elements depth nil = true
  fits_elements depth (cons v vs) = fits depth v && fits_elements depth vs

  pub fits_entries : ℕ → Entries → Bool
  fits_entries depth end = true
  fits_entries depth (entry k v es) = fits depth v && fits_entries depth es
