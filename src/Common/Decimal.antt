-- ===== src/Common/Decimal.antt =====
-- `to_string` and `parse` of Rust's unsigned integers, on ASCII bytes.
use magic_wormhole_rs.Common.Tests.{ltb, leb, ◌==◌, if◌then◌else◌, Bool-cases}
use magic_wormhole_rs.Common.Lists.{Bytes}
use Prim.Native.Nat.{ℕ, zero, suc, ◌+◌, ◌-◌, ◌*◌, ◌/◌, ◌%◌, ◌≤◌, ◌<◌}
use mathlib.Core.Path.{◌≡◌, ap, ◌∙◌}
use mathlib.Core.Logic.{inl, inr}
use mathlib.Core.Bool.{Bool, ◌&&◌}
use mathlib.Core.Option.{Option, none, some}
use mathlib.Core.List.{[], ◌∷◌, ◌++◌}
use native.Mathlib.Omega.{arith}

-- One round for each digit; `to_string` gives more rounds than the number has digits.
unfoldable pub digits_of : ℕ → ℕ → Bytes
digits_of zero n = []
digits_of (suc fuel) n =
    let front = digits_of fuel (n / 10) in
    if ltb n 10 then (48 + n) ∷ [] else front ++ ((48 + n % 10) ∷ [])

unfoldable pub to_string : ℕ → Bytes
unfolding digits_of
to_string n = digits_of (suc n) n

abbrev pub is_digit : ℕ → Bool
is_digit c = leb 48 c && ltb c 58

-- `limit` is one more than the largest value of the type.
unfoldable pub parse_digits : ℕ → ℕ → Bytes → Option ℕ
parse_digits limit acc [] = some acc
parse_digits limit acc (c ∷ cs) =
    let v = acc * 10 + (c - 48) in
    let rest = parse_digits limit v cs in
    if is_digit c then (if ltb v limit then rest else none) else none

abbrev parse_some : ℕ → Bytes → Option ℕ
parse_some limit [] = none
parse_some limit (c ∷ cs) = parse_digits limit 0 (c ∷ cs)

-- One leading `+` is allowed; no digit at all, or a value out of range, is an error.
unfoldable pub parse : ℕ → Bytes → Option ℕ
unfolding parse_digits
parse limit [] = none
parse limit (c ∷ cs) = if c == b'+' then parse_some limit cs else parse_digits limit 0 (c ∷ cs)

parse_digits-concat :
    (limit acc : ℕ) (cs : Bytes) (v d : ℕ)
    → parse_digits limit acc cs ≡ some v
    → d < 10
    → v * 10 + d < limit
    → parse_digits limit acc (cs ++ ((48 + d) ∷ [])) ≡ some (v * 10 + d)
unfolding parse_digits
parse_digits-concat limit acc [] v d e h l = ground arith
parse_digits-concat limit acc (c ∷ cs) v d e h l =
    ground (arith, parse_digits-concat limit (acc * 10 + (c - 48)) cs v d)

parse_digits-digits_of :
    (limit fuel n : ℕ) → n < fuel → n < limit → parse_digits limit 0 (digits_of fuel n) ≡ some n
unfolding digits_of
parse_digits-digits_of limit zero n h l = absurd (omega arith)
parse_digits-digits_of limit (suc fuel) n h l = elim (Bool-cases (ltb n 10)) [
  | inl small ↦ rw small (unfold parse_digits in ground arith)
  | inr large ↦ rw large (
      parse_digits-concat limit 0 (digits_of fuel (n / 10)) (n / 10) (n % 10)
        (parse_digits-digits_of limit fuel (n / 10) (ground arith) (omega arith)) (omega arith)
        (omega arith)
      ∙ ap some (omega arith))
]

-- The first byte is a digit.
pub digits_of-head :
    (fuel n : ℕ) → (c : ℕ) × (cs : Bytes) × (digits_of (suc fuel) n ≡ c ∷ cs) × (48 ≤ c) × (c < 58)
unfolding digits_of
digits_of-head zero n = elim (Bool-cases (ltb n 10)) [
  | inl small ↦ (48 + n, [], rw small, omega arith, ground arith)
  | inr large ↦ (48 + n % 10, [], rw large, omega arith, omega arith)
]
digits_of-head (suc fuel) n = elim (Bool-cases (ltb n 10)) [
  | inl small ↦ (48 + n, [], rw small, omega arith, ground arith)
  | inr large ↦
      let (c, cs, e, lo, hi) = digits_of-head fuel (n / 10) in
      (c, cs ++ ((48 + n % 10) ∷ []), rw large (rw e), lo, hi)
]

pub to_string-head : (n : ℕ) → (c : ℕ) × (cs : Bytes) × (to_string n ≡ c ∷ cs) × (48 ≤ c) × (c < 58)
unfolding to_string
to_string-head n = digits_of-head n n

-- A number in range is read back.
pub parse-to_string : (limit n : ℕ) → n < limit → parse limit (to_string n) ≡ some n
unfolding parse
parse-to_string limit n h =
    let (c, cs, e, lo, hi) = to_string-head n in
    let whole : parse_digits limit 0 (to_string n) ≡ some n =
      unfold to_string in parse_digits-digits_of limit (suc n) n (omega arith) h in
    ground arith

pub parse_digits-lt :
    (limit acc : ℕ) (cs : Bytes) (v : ℕ)
    → acc < limit
    → parse_digits limit acc cs ≡ some v
    → v < limit
unfolding parse_digits
parse_digits-lt limit acc [] v h e = ground arith
parse_digits-lt limit acc (c ∷ cs) v h e =
    ground (arith, parse_digits-lt limit (acc * 10 + (c - 48)) cs v)

-- Only numbers in range are accepted.
pub parse-lt : (limit : ℕ) (cs : Bytes) (v : ℕ) → 0 < limit → parse limit cs ≡ some v → v < limit
unfolding parse
parse-lt limit [] v p e = cc
parse-lt limit (c ∷ []) v p e = ground (arith, parse_digits-lt limit 0 (c ∷ []) v)
parse-lt limit (c ∷ d ∷ cs) v p e =
    ground (arith, parse_digits-lt limit 0 (c ∷ d ∷ cs) v, parse_digits-lt limit 0 (d ∷ cs) v)
