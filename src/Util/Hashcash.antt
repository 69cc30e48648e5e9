-- ===== src/Util/Hashcash.antt =====
-- `hashcash` of src/util.rs. SHA-1, base64, the date and the random bytes are parameters.
pub mod Least
use magic_wormhole_rs.Common.{
  ℕ, zero, suc, ◌+◌, ◌≤◌, ◌<◌, ◌≡◌, [], ◌∷◌, ◌++◌, Option, none, some, Bool, true, false, arith,
  Bytes, ltb, leb, ◌==◌, if◌then◌else◌, replicate, Bool-cases, inl, inr,
}
use magic_wormhole_rs.Common.Decimal.{to_string}
use magic_wormhole_rs.Common.Text.{codes}
use magic_wormhole_rs.Util.Counter.{sodium_increment_be, increments}

-- What the function takes from the crates and from the machine that it runs on.
pub record Mint : Type 0 where
  pub base64 : Bytes → Bytes
  pub sha1 : Bytes → Bytes
  -- `Utc::today()` in the format %y%m%d.
  pub today : Bytes
  -- The sixteen bytes drawn.
  pub random : Bytes

-- `u8::leading_zeros`.
unfoldable pub byte_zeros : ℕ → ℕ
byte_zeros b =
    if b == 0
    then 8
    else if ltb b 2
    then 7
    else if ltb b 4
    then 6
    else if ltb b 8
    then 5
    else if ltb b 16
    then 4
    else if ltb b 32
    then 3
    else if ltb b 64
    then 2
    else if ltb b 128
    then 1
    else 0

-- The inner loop over the digest: it ends at the first byte that is not all zeros.
unfoldable pub leading_zeros : Bytes → ℕ
leading_zeros [] = 0
leading_zeros (byte ∷ rest) =
    let more = leading_zeros rest in
    if ltb (byte_zeros byte) 8 then byte_zeros byte else byte_zeros byte + more

module _ (m : Mint) (resource : Bytes) (bits : ℕ) where
  -- `format!("1:{}:{}:{}::{}:{}", …)`
  unfoldable pub stamp_of : Bytes → Bytes
  stamp_of counter =
      codes "1:"
      ++ (to_string bits
          ++ (b':'
              ∷ (m.base64 m.today
                  ++ (b':'
                      ∷ (resource
                          ++ (b':' ∷ b':' ∷ (m.base64 m.random ++ (b':' ∷ m.base64 counter))))))))

  abbrev pub enough_zeros : Bytes → Bool
  enough_zeros counter = leb bits (leading_zeros (m.sha1 (stamp_of counter)))

  -- The loop, with a bound on its rounds; `none` means that the bound was reached. The hasher is
  -- reset in each round, so it is `sha1` of that round's stamp.
  pub mint_loop : ℕ → Bytes → Option Bytes
  mint_loop zero counter = none
  mint_loop (suc fuel) counter =
      let next = sodium_increment_be counter in
      let rest = mint_loop fuel next in if enough_zeros next then some (stamp_of next) else rest

  pub hashcash : ℕ → Option Bytes
  hashcash fuel = mint_loop fuel (replicate 8 0)

  mint_loop-least :
      (k fuel : ℕ) (counter : Bytes)
      → k < fuel
      → ((j : ℕ) → j < k → enough_zeros (increments (suc j) counter) ≡ false)
      → enough_zeros (increments (suc k) counter) ≡ true
      → mint_loop fuel counter ≡ some (stamp_of (increments (suc k) counter))
  unfolding mint_loop increments
  mint_loop-least k zero counter h below good = absurd (omega arith)
  mint_loop-least zero (suc fuel) counter h below good = rw good
  mint_loop-least (suc k) (suc fuel) counter h below good = rw (below 0 (omega arith)) (
      mint_loop-least k fuel (sodium_increment_be counter) (omega arith)
        (λ j jk. below (suc j) (omega arith)) good)

  -- If the `k`-th counter value is the first whose stamp hashes to at least `bits` leading zero
  -- bits, then `hashcash` returns that stamp after `k` rounds, whatever bound above that is set.
  pub hashcash-least :
      (k fuel : ℕ)
      → k < fuel
      → ((j : ℕ) → j < k → enough_zeros (increments (suc j) (replicate 8 0)) ≡ false)
      → enough_zeros (increments (suc k) (replicate 8 0)) ≡ true
      → hashcash fuel ≡ some (stamp_of (increments (suc k) (replicate 8 0)))
  unfolding hashcash
  hashcash-least k fuel h below good = mint_loop-least k fuel (replicate 8 0) h below good

  mint_loop-enough :
      (fuel : ℕ) (counter s : Bytes)
      → mint_loop fuel counter ≡ some s
      → (k : ℕ) × (k < fuel)
        × (s ≡ stamp_of (increments (suc k) counter))
        × (bits ≤ leading_zeros (m.sha1 s))
  unfolding mint_loop increments
  mint_loop-enough zero counter s e = cc
  mint_loop-enough (suc fuel) counter s e =
      elim (Bool-cases (enough_zeros (sodium_increment_be counter))) [
        | inl good ↦ (0, omega arith, ground arith, ground arith)
        | inr bad ↦
            let (k, kf, es, z) =
              mint_loop-enough fuel (sodium_increment_be counter) s (ground arith) in
            (suc k, omega arith, es, z)
      ]

  -- Whatever `hashcash` returns is the stamp of one of the counter values tried, and its hash has
  -- at least `bits` leading zero bits.
  pub hashcash-enough :
      (fuel : ℕ) (s : Bytes)
      → hashcash fuel ≡ some s
      → (k : ℕ) × (k < fuel)
        × (s ≡ stamp_of (increments (suc k) (replicate 8 0)))
        × (bits ≤ leading_zeros (m.sha1 s))
  unfolding hashcash
  hashcash-enough fuel s e = mint_loop-enough fuel (replicate 8 0) s e
