-- ===== src/Core/Crypto.antt =====
-- What the program takes from other crates: the ciphers and hashes, SPAKE2, and serde_json.
use magic_wormhole_rs.Common.{◌+◌, ◌≡◌, Option, some, Bytes, length}

-- `serde_json::to_vec` and `serde_json::from_slice` for one type; an error is `none`.
pub record Codec {ℓ} (A : Type ℓ) : Type ℓ where
  pub to_vec : A → Bytes
  pub from_slice : Bytes → Option A

pub record Crypto : Type 0 where
  -- `XSalsa20Poly1305::new(key).encrypt(nonce, plaintext)` and `decrypt`; an error is `none`.
  pub encrypt : Bytes → Bytes → Bytes → Option Bytes
  pub decrypt : Bytes → Bytes → Bytes → Option Bytes
  pub sha256 : Bytes → Bytes
  -- `Hkdf::<Sha256>::new(None, key).expand(purpose, …)` for 32 bytes.
  pub hkdf : Bytes → Bytes → Bytes
  pub hex_encode : Bytes → Bytes
  -- `SPAKE2::start_symmetric(password, identity)`, after the random scalar that it draws: the state
  -- kept and the message to send.
  pub spake_start : Bytes → Bytes → Bytes → Bytes × Bytes
  -- `finish`: the shared key, or an error.
  pub spake_finish : Bytes → Bytes → Option Bytes

-- What the crates document of these.
pub record IsSound (c : Crypto) : Type 0 where
  pub decrypt-encrypt :
      (key nonce plaintext ciphertext : Bytes)
      → c.encrypt key nonce plaintext ≡ some ciphertext
      → c.decrypt key nonce ciphertext ≡ some plaintext
  pub length-sha256 : (b : Bytes) → length (c.sha256 b) ≡ 32
  pub length-hkdf : (key purpose : Bytes) → length (c.hkdf key purpose) ≡ 32
  pub length-encrypt :
      (key nonce plaintext ciphertext : Bytes)
      → c.encrypt key nonce plaintext ≡ some ciphertext
      → length ciphertext ≡ length plaintext + 16
  pub length-hex_encode : (b : Bytes) → length (c.hex_encode b) ≡ length b + length b

-- Two runs of SPAKE2 with one password and one identity, each given the other's message, finish with
-- the same key.
unfoldable pub IsSymmetric : Crypto → Type 0
IsSymmetric c =
    (r r' password identity : Bytes)
    → c.spake_finish (c.spake_start r password identity).0 (c.spake_start r' password identity).1
      ≡ c.spake_finish (c.spake_start r' password identity).0 (c.spake_start r password identity).1
