-- ===== src/Transit/Socket.antt =====
-- A TCP stream as src/transit.rs uses it: the bytes that have arrived, whether the peer has closed
-- its side behind them, and what was written.
use mathlib.Core.List.{append-nil}
use magic_wormhole_rs.Common.{
  ℕ, ◌+◌, ◌*◌, ◌/◌, ◌%◌, ◌^◌, ◌<◌, ◌≡◌, [], ◌∷◌, ◌++◌, Bool, true, false, Bytes, ok, err, pending,
  Action, length, length-append, take, drop, take-append_length, drop-append_length, ltb,
  if◌then◌else◌, arith, le→ltb, Bool-cases, inl, inr, ap, sym, ◌∙◌, take-append-drop, length-take,
}

-- `std::io::Error`
pub data IoError : Type 0 where
  unexpected_eof : IoError
  incomplete_message : IoError
  broken_pipe : IoError
  bad_address : IoError
  already_exists : IoError
  not_found : IoError

pub record Socket : Type 0 where
  pub input : Bytes
  pub ended : Bool
  pub output : Bytes
  pub writable : Bool

-- `read_exact` on `n` bytes; `wrap` makes the caller's error of an I/O error.
unfoldable pub read_exact {ℓ} : {E : Type ℓ} → (IoError → E) → ℕ → Action Socket E Bytes
read_exact wrap n s =
    if ltb (length s.input) n
    then (if s.ended then (err (wrap unexpected_eof), record s { input = [] }) else (pending, s))
    else (ok (take n s.input), record s { input = drop n s.input })

-- `take(n).read_to_end(…)`: `n` bytes, or fewer if the stream ends before.
unfoldable pub read_up_to {ℓ} : {E : Type ℓ} → ℕ → Action Socket E Bytes
read_up_to n s =
    if ltb (length s.input) n
    then (if s.ended then (ok s.input, record s { input = [] }) else (pending, s))
    else (ok (take n s.input), record s { input = drop n s.input })

unfoldable pub write_all {ℓ} : {E : Type ℓ} → (IoError → E) → Bytes → Action Socket E (Unit {0})
write_all wrap b s =
    if s.writable then (ok tt, record s { output = s.output ++ b }) else (err (wrap broken_pipe), s)

-- `u32::to_be_bytes`
unfoldable pub to_be_bytes : ℕ → Bytes
to_be_bytes n = (n / 2 ^ 24 % 256) ∷ (n / 2 ^ 16 % 256) ∷ (n / 2 ^ 8 % 256) ∷ (n % 256) ∷ []

-- `u32::from_be_bytes`
unfoldable pub from_be_bytes : Bytes → ℕ
from_be_bytes (a ∷ b ∷ c ∷ d ∷ []) = a * 2 ^ 24 + b * 2 ^ 16 + c * 2 ^ 8 + d
from_be_bytes _ = 0

pub from_be_bytes-to_be_bytes : (n : ℕ) → n < 2 ^ 32 → from_be_bytes (to_be_bytes n) ≡ n
unfolding from_be_bytes to_be_bytes
from_be_bytes-to_be_bytes n h = omega arith

-- Reading the first part of what has arrived.
pub read_exact_prefix {ℓ} :
    {E : Type ℓ} (wrap : IoError → E) (b rest : Bytes) (s : Socket)
    → s.input ≡ b ++ rest
    → read_exact wrap (length b) s ≡ (ok b, record s { input = rest })
unfolding read_exact
read_exact_prefix wrap b rest s e =
    let enough : ltb (length s.input) (length b) ≡ false =
      le→ltb _ _ (rw e (omega (arith, length-append b rest))) in
    rw enough (λ i. (ok (first i), record s { input = later i }))
  where
    first : take (length b) s.input ≡ b
    first = rw e (take-append_length b rest)

    later : drop (length b) s.input ≡ rest
    later = rw e (drop-append_length b rest)

pub read_up_to_prefix {ℓ} :
    {E : Type ℓ} (b rest : Bytes) (s : Socket)
    → s.input ≡ b ++ rest
    → read_up_to {E = E} (length b) s ≡ (ok b, record s { input = rest })
unfolding read_up_to
read_up_to_prefix b rest s e =
    let enough : ltb (length s.input) (length b) ≡ false =
      le→ltb _ _ (rw e (omega (arith, length-append b rest))) in
    rw enough (λ i. (ok (first i), record s { input = later i }))
  where
    first : take (length b) s.input ≡ b
    first = rw e (take-append_length b rest)

    later : drop (length b) s.input ≡ rest
    later = rw e (drop-append_length b rest)

module _ {ℓ} {E : Type ℓ} where
  -- What a read gave stood at the front of the stream.
  pub read_exact-splits :
      (wrap : IoError → E) (n : ℕ) (s t : Socket) (b : Bytes)
      → read_exact wrap n s ≡ (ok b, t)
      → (s.input ≡ b ++ t.input) × (length b ≡ n) × (t.output ≡ s.output)
  unfolding read_exact
  read_exact-splits wrap n s t b h = elim (Bool-cases (ltb (length s.input) n)) [
    | inl e ↦ elim (Bool-cases s.ended) [
      | inl x ↦ let h' = rw (e, x, read_exact) at h in cc
      | inr x ↦ let h' = rw (e, x, read_exact) at h in cc
    ]
    | inr e ↦
        let h' : (ok (take n s.input), record s { input = drop n s.input }) ≡ (ok b, t) =
          rw (e, read_exact) at h in
        let taken : take n s.input ≡ b = cc h' in
        let left : drop n s.input ≡ t.input = ap (λ r. r.1.input) h' in
        (
          sym (take-append-drop n s.input)
              ∙ ap (λ x. x ++ drop n s.input) taken
              ∙ ap (λ x. b ++ x) left,
          sym (ap length taken) ∙ ground (arith, length-take n s.input),
          ap (λ r. r.1.output) (sym h'),
        )
  ]

  pub read_up_to-splits :
      (n : ℕ) (s t : Socket) (b : Bytes)
      → read_up_to {E = E} n s ≡ (ok b, t)
      → s.input ≡ b ++ t.input
  unfolding read_up_to
  read_up_to-splits n s t b h = elim (Bool-cases (ltb (length s.input) n)) [
    | inl e ↦ elim (Bool-cases s.ended) [
      | inl x ↦
          let h' : (ok s.input, record s { input = []; ended = true }) ≡ (ok b, t) =
            rw (e, x, read_up_to) at h in
          let whole : s.input ≡ b = cc h' in
          let nothing : [] ≡ t.input = ap (λ r. r.1.input) h' in
          whole ∙ sym (append-nil b) ∙ ap (λ x. b ++ x) nothing
      | inr x ↦ let h' = rw (e, x, read_up_to) at h in cc
    ]
    | inr e ↦
        let h' : (ok (take n s.input), record s { input = drop n s.input }) ≡ (ok b, t) =
          rw (e, read_up_to) at h in
        let taken : take n s.input ≡ b = cc h' in
        let left : drop n s.input ≡ t.input = ap (λ r. r.1.input) h' in
        sym (take-append-drop n s.input)
        ∙ ap (λ x. x ++ drop n s.input) taken
        ∙ ap (λ x. b ++ x) left
  ]
