-- ===== src/Examples/JsonText.antt =====
-- A stand-in for the text of serde_json: a prefix code on numbers, in which every value is read back.
use magic_wormhole_rs.Common.{
  ℕ, zero, suc, ◌+◌, ◌≤◌, ◌≡◌, refl, [], ◌∷◌, ◌++◌, Option, none, some, true, false, Bytes, length,
  take, drop, take-append_length, drop-append_length, arith,
}
use magic_wormhole_rs.Core.Json.{
  Json, null, boolean, number, other_number, string, array, object, Elements, nil, cons, Entries,
  end, entry, ◌>>=◌,
}
use magic_wormhole_rs.Core.Json.Text.{JsonText, IsFaithful}

-- A text and what follows it.
abbrev print_string : Bytes → Bytes → Bytes
print_string s rest = length s ∷ (s ++ rest)

abbrev read_text : Bytes → Option (Bytes × Bytes)
read_text [] = none
read_text (n ∷ rest) = some (take n rest, drop n rest)

unfoldable mutual
  write : Json → Bytes → Bytes
  write null rest = zero ∷ rest
  write (boolean false) rest = suc zero ∷ rest
  write (boolean true) rest = suc (suc zero) ∷ rest
  write (number n) rest = suc (suc (suc zero)) ∷ n ∷ rest
  write (other_number s) rest = suc (suc (suc (suc zero))) ∷ print_string s rest
  write (string s) rest = suc (suc (suc (suc (suc zero)))) ∷ print_string s rest
  write (array vs) rest = suc (suc (suc (suc (suc (suc zero))))) ∷ write_array vs rest
  write (object es) rest = suc (suc (suc (suc (suc (suc (suc zero)))))) ∷ write_object es rest

  write_array : Elements → Bytes → Bytes
  write_array nil rest = zero ∷ rest
  write_array (cons v vs) rest = suc zero ∷ write v (write_array vs rest)

  write_object : Entries → Bytes → Bytes
  write_object end rest = zero ∷ rest
  write_object (entry k v es) rest = suc zero ∷ print_string k (write v (write_object es rest))

abbrev and_rest {ℓ κ} : {A : Type ℓ} {B : Type κ} → (A → B) → A × Bytes → Option (B × Bytes)
and_rest f (a, rest) = some (f a, rest)

unfoldable mutual
  read : ℕ → Bytes → Option (Json × Bytes)
  read zero text = none
  read (suc fuel) [] = none
  read (suc fuel) (zero ∷ rest) = some (null, rest)
  read (suc fuel) (suc zero ∷ rest) = some (boolean false, rest)
  read (suc fuel) (suc (suc zero) ∷ rest) = some (boolean true, rest)
  read (suc fuel) (suc (suc (suc zero)) ∷ []) = none
  read (suc fuel) (suc (suc (suc zero)) ∷ n ∷ rest) = some (number n, rest)
  read (suc fuel) (suc (suc (suc (suc zero))) ∷ rest) = read_text rest >>= and_rest other_number
  read (suc fuel) (suc (suc (suc (suc (suc zero)))) ∷ rest) = read_text rest >>= and_rest string
  read (suc fuel) (suc (suc (suc (suc (suc (suc zero))))) ∷ rest) =
      read_array fuel rest >>= and_rest array
  read (suc fuel) (suc (suc (suc (suc (suc (suc (suc n)))))) ∷ rest) =
      read_object fuel rest >>= and_rest object

  read_array : ℕ → Bytes → Option (Elements × Bytes)
  read_array zero text = none
  read_array (suc fuel) [] = none
  read_array (suc fuel) (zero ∷ rest) = some (nil, rest)
  read_array (suc fuel) (suc n ∷ rest) =
      read fuel rest >>= λ (v, more). read_array fuel more >>= and_rest (cons v)

  read_object : ℕ → Bytes → Option (Entries × Bytes)
  read_object zero text = none
  read_object (suc fuel) [] = none
  read_object (suc fuel) (zero ∷ rest) = some (end, rest)
  read_object (suc fuel) (suc n ∷ rest) = read_text rest >>= λ (k, r).
      read fuel r >>= λ (v, more). read_object fuel more >>= and_rest (entry k v)

unfoldable mutual
  size : Json → ℕ
  size (array vs) = suc (size_array vs)
  size (object es) = suc (size_object es)
  size _ = 1

  size_array : Elements → ℕ
  size_array nil = 1
  size_array (cons v vs) = suc (size v + size_array vs)

  size_object : Entries → ℕ
  size_object end = 1
  size_object (entry k v es) = suc (size v + size_object es)

size-pos : (v : Json) → 1 ≤ size v
unfolding size
size-pos null = omega arith
size-pos (boolean b) = omega arith
size-pos (number n) = omega arith
size-pos (other_number s) = omega arith
size-pos (string s) = omega arith
size-pos (array vs) = omega arith
size-pos (object es) = omega arith

mutual
  unfolding read write size

  read-write :
      (v : Json) (fuel : ℕ) (rest : Bytes)
      → size v ≤ fuel
      → read fuel (write v rest) ≡ some (v, rest)
  read-write (array vs) (suc fuel) rest h =
      rw (read_array-write_array vs fuel rest (omega (arith, h))) refl
  read-write (object es) (suc fuel) rest h =
      rw (read_object-write_object es fuel rest (omega (arith, h))) refl
  read-write (other_number s) (suc fuel) rest h =
      rw (take-append_length s rest, drop-append_length s rest) refl
  read-write (string s) (suc fuel) rest h =
      rw (take-append_length s rest, drop-append_length s rest) refl
  read-write null (suc fuel) rest h = refl
  read-write (boolean false) (suc fuel) rest h = refl
  read-write (boolean true) (suc fuel) rest h = refl
  read-write (number n) (suc fuel) rest h = refl
  read-write v zero rest h = absurd (omega (arith, size-pos v, h))

  read_array-write_array :
      (vs : Elements) (fuel : ℕ) (rest : Bytes)
      → size_array vs ≤ fuel
      → read_array fuel (write_array vs rest) ≡ some (vs, rest)
  read_array-write_array nil (suc fuel) rest h = refl
  read_array-write_array (cons v vs) (suc fuel) rest h =
      rw
        (
          read-write v fuel (write_array vs rest) (omega (arith, h)),
          read_array-write_array vs fuel rest (omega (arith, h)),
        )
        refl
  read_array-write_array nil zero rest h = absurd (omega (arith, h))
  read_array-write_array (cons v vs) zero rest h = absurd (omega (arith, h))

  read_object-write_object :
      (es : Entries) (fuel : ℕ) (rest : Bytes)
      → size_object es ≤ fuel
      → read_object fuel (write_object es rest) ≡ some (es, rest)
  read_object-write_object end (suc fuel) rest h = refl
  read_object-write_object (entry k v es) (suc fuel) rest h =
      rw
        (
          take-append_length k (write v (write_object es rest)),
          drop-append_length k (write v (write_object es rest)),
          read-write v fuel (write_object es rest) (omega (arith, h)),
          read_object-write_object es fuel rest (omega (arith, h)),
        )
        refl
  read_object-write_object end zero rest h = absurd (omega (arith, h))
  read_object-write_object (entry k v es) zero rest h = absurd (omega (arith, h))

first : Json × Bytes → Option Json
first (v, rest) = some v

-- The text begins with the size of the value.
parse : Bytes → Option Json
unfolding read first
parse [] = none
parse (n ∷ b) = read n b >>= first

print : Json → Bytes
unfolding size write
print v = size v ∷ write v []

unfoldable pub toy_text : JsonText
unfolding print parse
toy_text = record { print = print; parse = parse }

pub toy_text-IsFaithful : IsFaithful toy_text
unfolding IsFaithful toy_text parse print
toy_text-IsFaithful v h = rw (read-write v (size v) [] (omega arith)) refl
