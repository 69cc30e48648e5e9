-- ===== src/Util/Counter.antt =====
-- `sodium_increment_le` and `sodium_increment_be` of src/util.rs, and what they do to the number
-- that the bytes stand for.
use mathlib.Core.List.{reverse, reverse-reverse, reverse-cons}
use native.Mathlib.Nat.{
  add-mul-mod_self_left, mod-eq_of_lt, div-add-mod, mod-add-mod, pow-suc, add-zero, mul-le-mul_left,
}
use native.Mathlib.Decide.{dec_lt}
use magic_wormhole_rs.Common.{
  ℕ, zero, suc, ◌+◌, ◌*◌, ◌/◌, ◌%◌, ◌^◌, ◌<◌, ◌≡◌, refl, sym, ap, ◌∙◌, List, [], ◌∷◌, arith, Bytes,
  IsByte, All, All-append, length, length-append, ◌≢◌,
}

-- The loop over the bytes, lowest first, with the carry `c`. `c` is at most 1 before each round and
-- a byte at most 255, so the u16 sum never wraps. `as u8` is `% 256` and `>>= 8` is `/ 256`.
unfoldable pub increment_loop : ℕ → Bytes → Bytes
increment_loop c [] = []
increment_loop c (b ∷ n) = ((c + b) % 256) ∷ increment_loop ((c + b) / 256) n

unfoldable pub sodium_increment_le : Bytes → Bytes
sodium_increment_le n = increment_loop 1 n

-- `n.iter_mut().rev()` visits the bytes from the last to the first.
unfoldable pub sodium_increment_be : Bytes → Bytes
sodium_increment_be n = reverse (increment_loop 1 (reverse n))

-- The number that the bytes stand for, lowest byte first, and highest byte first.
abbrev pub value_le : Bytes → ℕ
value_le [] = 0
value_le (b ∷ n) = b + 256 * value_le n

abbrev pub value_be : Bytes → ℕ
value_be n = value_le (reverse n)

pub length-increment_loop : (c : ℕ) (n : Bytes) → length (increment_loop c n) ≡ length n
unfolding increment_loop
length-increment_loop c [] = refl
length-increment_loop c (b ∷ n) = ap suc (length-increment_loop ((c + b) / 256) n)

pub increment_loop-IsByte : (c : ℕ) (n : Bytes) → All IsByte (increment_loop c n)
unfolding increment_loop
increment_loop-IsByte c [] = tt
increment_loop-IsByte c (b ∷ n) = (omega arith, increment_loop-IsByte ((c + b) / 256) n)

pub value_le-lt : (n : Bytes) → All IsByte n → value_le n < 256 ^ length n
value_le-lt [] h = omega arith
value_le-lt (b ∷ n) h = rw (pow-suc 256 (length n)) (omega (arith, value_le-lt n h.1))

-- The carry out of the highest byte is what the number loses.
increment_loop-carry :
    (c : ℕ) (n : Bytes)
    → (k : ℕ) × (value_le (increment_loop c n) + 256 ^ length n * k ≡ value_le n + c)
unfolding increment_loop
increment_loop-carry c [] = (c, omega arith)
increment_loop-carry c (b ∷ n) =
    let (k, e) = increment_loop-carry ((c + b) / 256) n in
    (k, rw (pow-suc 256 (length n)) (omega (arith, e, div-add-mod (c + b) 256)))

pub value_le-increment_loop :
    (c : ℕ) (n : Bytes) → value_le (increment_loop c n) ≡ (value_le n + c) % 256 ^ length n
value_le-increment_loop c n =
    let (k, e) = increment_loop-carry c n in
    let small : value_le (increment_loop c n) < 256 ^ length n =
      rw (length-increment_loop c n) at (value_le-lt _ (increment_loop-IsByte c n)) in
    sym (mod-eq_of_lt small)
    ∙ sym (add-mul-mod_self_left (value_le (increment_loop c n)) (256 ^ length n) k)
    ∙ ap (λ t. t % 256 ^ length n) e

pub length-reverse {ℓ} : {A : Type ℓ} (xs : List A) → length (reverse xs) ≡ length xs
length-reverse [] = refl
length-reverse (x ∷ xs) =
    omega
      (arith, ap length (reverse-cons x xs), length-append (reverse xs) (x ∷ []), length-reverse xs)

pub reverse-IsByte : (n : Bytes) → All IsByte n → All IsByte (reverse n)
reverse-IsByte [] h = tt
reverse-IsByte (b ∷ n) h =
    rw (reverse-cons b n) (All-append IsByte (reverse n) (b ∷ []) (reverse-IsByte n h.1) (h.0, tt))

-- `sodium_increment_be` adds one to the big-endian number and wraps only past the largest number
-- of that many bytes; the length stays, and every byte written is a byte.
pub sodium_increment_be_lem :
    (n : Bytes)
    → (value_be (sodium_increment_be n) ≡ (value_be n + 1) % 256 ^ length n)
      × (length (sodium_increment_be n) ≡ length n)
      × All IsByte (sodium_increment_be n)
unfolding sodium_increment_be
sodium_increment_be_lem n = (
  rw (
    reverse-reverse (increment_loop 1 (reverse n)),
    value_le-increment_loop 1 (reverse n),
    length-reverse n,
  ),
  length-reverse _ ∙ length-increment_loop 1 (reverse n) ∙ length-reverse n,
  reverse-IsByte _ (increment_loop-IsByte 1 (reverse n)),
)

-- The little-endian counter is the big-endian one on the reversed bytes.
pub sodium_increment_le-be :
    (n : Bytes) → sodium_increment_le (reverse n) ≡ reverse (sodium_increment_be n)
unfolding sodium_increment_be sodium_increment_le
sodium_increment_le-be n = sym (reverse-reverse _)

-- The counter after `k` increments.
unfoldable pub increments : ℕ → Bytes → Bytes
increments zero n = n
increments (suc k) n = increments k (sodium_increment_be n)

pub length-increments : (k : ℕ) (n : Bytes) → length (increments k n) ≡ length n
unfolding increments
length-increments zero n = refl
length-increments (suc k) n =
    length-increments k (sodium_increment_be n) ∙ (sodium_increment_be_lem n).1

pub value_be-increments :
    (k : ℕ) (n : Bytes)
    → All IsByte n
    → value_be (increments k n) ≡ (value_be n + k) % 256 ^ length n
unfolding increments
value_be-increments zero n h =
    let small : value_be n < 256 ^ length n =
      rw (length-reverse n) at (value_le-lt (reverse n) (reverse-IsByte n h)) in
    sym (ap (λ t. t % 256 ^ length n) (add-zero (value_be n)) ∙ mod-eq_of_lt small)
value_be-increments (suc k) n h =
    let (v, l, b) = sodium_increment_be_lem n in
    value_be-increments k (sodium_increment_be n) b
    ∙ rw (v, l)
        (mod-add-mod (value_be n + 1) (256 ^ length n) k
          ∙ ap (λ t. t % 256 ^ length n) (omega arith))

mod-distinct : (v i j m : ℕ) → i < j → j < m → (v + i) % m ≢ (v + j) % m
mod-distinct v i j m ij jm e =
    let q : ℕ = (v + i) / m in
    let r : ℕ = (v + j) / m in
    let low : m * q + (v + i) % m ≡ v + i = div-add-mod (v + i) m in
    let high : m * r + (v + j) % m ≡ v + j = div-add-mod (v + j) m in
    elim (dec_lt q r) [
      | yes h ↦ omega (arith, low, high, mul-le-mul_left m h)
      | no h ↦ omega (arith, low, high, mul-le-mul_left {m = r} {n = q} m (omega arith))
    ]

-- Two counters reached from one start by different numbers of increments, both below the number
-- of values that the bytes have, differ: a nonce never repeats.
pub increments-distinct :
    (n : Bytes) (i j : ℕ)
    → All IsByte n
    → i < j
    → j < 256 ^ length n
    → increments i n ≢ increments j n
increments-distinct n i j h ij jn e =
    mod-distinct (value_be n) i j (256 ^ length n) ij jn
      (sym (value_be-increments i n h) ∙ ap value_be e ∙ value_be-increments j n h)
