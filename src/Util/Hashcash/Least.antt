-- ===== src/Util/Hashcash/Least.antt =====
-- What `hashcash` of src/util.rs mints, told by the text of a token and the bits of its digest.
use magic_wormhole_rs.Common.{
  ℕ, zero, suc, ◌+◌, ◌-◌, ◌*◌, ◌^◌, ◌≤◌, ◌<◌, ◌≡◌, ◌↔◌, ◌⊎◌, refl, ap, ◌∙◌, List, [], ◌∷◌, ◌++◌,
  some, true, false, arith, Bytes, leb, replicate, Bool-cases, inl, inr,
}
use magic_wormhole_rs.Common.Decimal.{to_string}
use magic_wormhole_rs.Common.Text.{codes}
use magic_wormhole_rs.Util.Counter.{increments}
use magic_wormhole_rs.Util.Hashcash.{
  Mint, byte_zeros, leading_zeros, stamp_of, enough_zeros, hashcash, hashcash-least,
}

-- The first `n` bits are zero, the bytes written with their highest bit first.
unfoldable pub ZeroBits : ℕ → Bytes → Type 0
ZeroBits n [] = n ≡ 0
ZeroBits n (b ∷ bs) =
    (n ≡ 0) ⊎ ((n ≤ 8) × (b * 2 ^ n < 256)) ⊎ ((8 < n) × (b ≡ 0) × ZeroBits (n - 8) bs)

-- Texts with a colon between each two.
abbrev pub colons : List Bytes → Bytes
colons [] = []
colons (x ∷ []) = x
colons (x ∷ y ∷ ys) = x ++ (b':' ∷ colons (y ∷ ys))

byte_zeros-eight : (b : ℕ) → 8 ≤ byte_zeros b → b ≡ 0
unfolding byte_zeros
byte_zeros-eight b h = ground (arith, h)

byte_zeros-le : (b : ℕ) → byte_zeros b ≤ 8
unfolding byte_zeros
byte_zeros-le b = ground arith

byte_zeros-bits : (n b : ℕ) → n ≤ 7 → (suc n ≤ byte_zeros b) ↔ (b * 2 ^ suc n < 256)
unfolding byte_zeros
byte_zeros-bits zero b h = ground arith
byte_zeros-bits (suc zero) b h = ground arith
byte_zeros-bits (suc (suc zero)) b h = ground arith
byte_zeros-bits (suc (suc (suc zero))) b h = ground arith
byte_zeros-bits (suc (suc (suc (suc zero)))) b h = ground arith
byte_zeros-bits (suc (suc (suc (suc (suc zero))))) b h = ground arith
byte_zeros-bits (suc (suc (suc (suc (suc (suc zero)))))) b h = ground arith
byte_zeros-bits (suc (suc (suc (suc (suc (suc (suc zero))))))) b h = ground arith
byte_zeros-bits (suc (suc (suc (suc (suc (suc (suc (suc n)))))))) b h = absurd (omega (arith, h))

leading_zeros-cons :
    (b : ℕ) (bs : Bytes)
    → ((byte_zeros b < 8) × (leading_zeros (b ∷ bs) ≡ byte_zeros b))
      ⊎ ((byte_zeros b ≡ 8) × (leading_zeros (b ∷ bs) ≡ 8 + leading_zeros bs))
unfolding leading_zeros
leading_zeros-cons b bs = ground (arith, byte_zeros-le b)

bits_from : (n : ℕ) (bs : Bytes) → n ≤ leading_zeros bs → ZeroBits n bs
unfolding ZeroBits
bits_from n [] h = let at_most : n ≤ 0 = unfold leading_zeros in h in omega (arith, at_most)
bits_from zero (b ∷ bs) h = inl refl
bits_from (suc n) (b ∷ bs) h = elim (Bool-cases (leb n 7)) [
  | inl low ↦
      let within : suc n ≤ byte_zeros b = ground (arith, h, low, leading_zeros-cons b bs) in
      inr (inl (ground (arith, low), (byte_zeros-bits n b (ground (arith, low))).0 within))
  | inr high ↦ elim (leading_zeros-cons b bs) [
    | inl (less, e) ↦ absurd (ground (arith, h, high, less, e))
    | inr (eight, e) ↦
        let more : suc n - 8 ≤ leading_zeros bs = ground (arith, h, high, e) in
        inr (
          inr (
            ground (arith, high),
            byte_zeros-eight b (omega (arith, eight)),
            bits_from (suc n - 8) bs more,
          ))
  ]
]

bits_to : (n : ℕ) (bs : Bytes) → ZeroBits n bs → n ≤ leading_zeros bs
unfolding ZeroBits
bits_to n [] z = omega (arith, z)
bits_to zero (b ∷ bs) z = omega arith
bits_to (suc n) (b ∷ bs) (inl z) = absurd (omega (arith, z))
bits_to (suc n) (b ∷ bs) (inr (inl (low, small))) =
    let within : suc n ≤ byte_zeros b = (byte_zeros-bits n b (omega (arith, low))).1 small in
    ground (arith, within, leading_zeros-cons b bs)
bits_to (suc n) (b ∷ bs) (inr (inr (high, z, rest))) =
    let within : 8 ≤ byte_zeros b = (byte_zeros-bits 7 b (omega arith)).1 (rw z (omega arith)) in
    ground (arith, within, high, bits_to (suc n - 8) bs rest, leading_zeros-cons b bs)

module _ (m : Mint) (resource : Bytes) (bits : ℕ) where
  -- The token of a counter: its version, the bits, the date, the resource, nothing, the random bytes
  -- and the counter.
  abbrev pub token : Bytes → Bytes
  token counter = colons (
      codes "1"
      ∷ to_string bits
      ∷ m.base64 m.today
      ∷ resource
      ∷ []
      ∷ m.base64 m.random
      ∷ m.base64 counter
      ∷ [])

  -- The token of the counter after `k` increments of eight zero bytes, and whether its digest begins
  -- with enough zero bits.
  abbrev pub Suffices : ℕ → Type 0
  Suffices k = ZeroBits bits (m.sha1 (token (increments k (replicate 8 0))))

  stamp_of-token : (counter : Bytes) → stamp_of m resource bits counter ≡ token counter
  unfolding stamp_of
  stamp_of-token counter = refl

  enough : (k : ℕ) → Suffices k → enough_zeros m resource bits (increments k (replicate 8 0)) ≡ true
  enough k z =
      let more = bits_to bits (m.sha1 (token (increments k (replicate 8 0)))) z in
      rw (stamp_of-token (increments k (replicate 8 0))) (ground (arith, more))

  too_few :
      (k : ℕ) → ¬ Suffices k → enough_zeros m resource bits (increments k (replicate 8 0)) ≡ false
  too_few k n = elim (Bool-cases (enough_zeros m resource bits (increments k (replicate 8 0)))) [
    | inl enough_there ↦
        let h : leb bits (leading_zeros (m.sha1 (token (increments k (replicate 8 0))))) ≡ true =
          rw (stamp_of-token (increments k (replicate 8 0))) at enough_there in
        absurd
          (n (bits_from bits (m.sha1 (token (increments k (replicate 8 0)))) (ground (arith, h))))
    | inr lacking ↦ lacking
  ]

  -- If the counter after `k + 1` increments is the first whose token, hashed, begins with `bits` zero
  -- bits, then `hashcash` ends in the round of that counter with that token: the version 1, the bits,
  -- the date, the resource, an empty field, the random bytes and the counter, between colons.
  pub hashcash-first :
      (k fuel : ℕ)
      → k < fuel
      → ((j : ℕ) → j < k → ¬ Suffices (suc j))
      → Suffices (suc k)
      → hashcash m resource bits fuel ≡ some (token (increments (suc k) (replicate 8 0)))
  hashcash-first k fuel h below good =
      hashcash-least m resource bits k fuel h (λ j l. too_few (suc j) (below j l))
        (enough (suc k) good)
      ∙ ap some (stamp_of-token (increments (suc k) (replicate 8 0)))
