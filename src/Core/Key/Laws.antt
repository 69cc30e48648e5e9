-- ===== src/Core/Key/Laws.antt =====
-- What the functions of src/core/key.rs guarantee, given the crates' documented behaviour.
use mathlib.Core.Option
use magic_wormhole_rs.Common.{
  ◌≤◌, ◌<◌, ◌≡◌, ◌≢◌, refl, [], ◌∷◌, ◌++◌, Option, none, some, arith, Bytes, false, get_or, ok,
  panic, length, take, drop, length-append, take-append_length, drop-append_length, ap, ◌∙◌, sym,
  ltb, Bool-cases, inl, inr, ◌⊎◌,
}
use magic_wormhole_rs.Common.Text.{codes}
use magic_wormhole_rs.Core.Names.{EitherSide, Phase}
use magic_wormhole_rs.Core.Crypto.{Crypto, IsSound}
use magic_wormhole_rs.Core.Key.{encrypt_data, decrypt_data, phase_purpose}

module _ (c : Crypto) where
  -- `decrypt_data` panics exactly on messages shorter than a nonce, and then on every key.
  pub decrypt_data_cases :
      (key encrypted : Bytes)
      → ((length encrypted < 24) × (decrypt_data c key encrypted ≡ panic))
        ⊎ ((24 ≤ length encrypted)
            × (decrypt_data c key encrypted
                ≡ ok (c.decrypt key (take 24 encrypted) (drop 24 encrypted))))
  unfolding decrypt_data
  decrypt_data_cases key encrypted = elim (Bool-cases (ltb (length encrypted) 24)) [
    | inl short ↦ inl (ground arith, rw short)
    | inr long ↦ inr (ground arith, rw long)
  ]

  open_sealed :
      (s : IsSound c) (key plaintext nonce ciphertext : Bytes)
      → length nonce ≡ 24
      → c.encrypt key nonce plaintext ≡ some ciphertext
      → decrypt_data c key (nonce ++ ciphertext) ≡ ok (some plaintext)
  unfolding decrypt_data
  open_sealed s key plaintext nonce ciphertext n e =
      let cut : take 24 (nonce ++ ciphertext) ≡ nonce =
        rw n at (take-append_length nonce ciphertext) in
      let rest : drop 24 (nonce ++ ciphertext) ≡ ciphertext =
        rw n at (drop-append_length nonce ciphertext) in
      let long : ltb (length (nonce ++ ciphertext)) 24 ≡ false =
        ground (arith, length-append nonce ciphertext) in
      rw (long, cut, rest, s.decrypt-encrypt key nonce plaintext ciphertext e)

  -- What `encrypt_data` makes with a nonce of the right size, `decrypt_data` opens with the same key.
  pub decrypt_data-encrypt_data :
      (s : IsSound c) (key plaintext nonce encrypted : Bytes)
      → length nonce ≡ 24
      → encrypt_data c nonce key plaintext ≡ some encrypted
      → decrypt_data c key encrypted ≡ ok (some plaintext)
  unfolding encrypt_data
  decrypt_data-encrypt_data s key plaintext nonce encrypted n e =
      go (c.encrypt key nonce plaintext) refl e
    where
      go :
          (o : Option Bytes)
          → c.encrypt key nonce plaintext ≡ o
          → Option.map (λ (t : Bytes). nonce ++ t) o ≡ some encrypted
          → decrypt_data c key encrypted ≡ ok (some plaintext)
      go none p q = cc
      go (some t) p q =
          let same : nonce ++ t ≡ encrypted = cc q in
          rw (← same) (open_sealed s key plaintext nonce t n p)

  append_cancel : (a b x y : Bytes) → length a ≡ length b → a ++ x ≡ b ++ y → (a ≡ b) × (x ≡ y)
  append_cancel [] [] x y l e = (refl, e)
  append_cancel [] (h ∷ b) x y l e = absurd (omega arith)
  append_cancel (h ∷ a) [] x y l e = absurd (omega arith)
  append_cancel (g ∷ a) (h ∷ b) x y l e =
      let (p, q) = append_cancel a b x y (omega arith) (cc e) in (cc (e, p), q)

  -- If two phase keys have the same purpose, and a hash has 32 bytes, then the hashes of their sides
  -- and of their phases are the same; and that purpose is not the one of the verifier.
  pub phase_purpose-separates :
      (s : IsSound c) (side side' : EitherSide) (phase phase' : Phase)
      → phase_purpose c side phase ≡ phase_purpose c side' phase'
      → (c.sha256 side ≡ c.sha256 side')
        × (c.sha256 phase ≡ c.sha256 phase')
        × (phase_purpose c side phase ≢ codes "wormhole:verifier")
  unfolding phase_purpose
  phase_purpose-separates s side side' phase phase' e =
      let (a, b) =
        append_cancel (c.sha256 side) (c.sha256 side') (c.sha256 phase) (c.sha256 phase')
          (s.length-sha256 side ∙ sym (s.length-sha256 side'))
          (append_cancel (codes "wormhole:phase:") (codes "wormhole:phase:") _ _ refl e).1 in
      (a, b, λ v. absurd (omega (arith, ap (λ l. get_or l 9 0) v)))
