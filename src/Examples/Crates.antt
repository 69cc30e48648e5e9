-- ===== src/Examples/Crates.antt =====
-- Stand-ins for the ciphers and hashes that the program takes from other crates.
use magic_wormhole_rs.Common.{
  ◌≡◌, refl, ◌++◌, some, Bytes, length, length-append, drop, replicate, arith, ap, ◌∙◌, sym,
}
use magic_wormhole_rs.Core.Crypto.{Crypto, IsSound, IsSymmetric}

-- The tag is sixteen zeros, a hash is 32 zeros, a byte in hex is the byte twice.
abbrev pub toy : Crypto
toy = record {
  encrypt = λ key nonce plaintext. some (replicate 16 0 ++ plaintext);
  decrypt = λ key nonce ciphertext. some (drop 16 ciphertext);
  sha256 = λ b. replicate 32 0;
  hkdf = λ key purpose. replicate 32 7;
  hex_encode = λ b. b ++ b;
  spake_start = λ random password identity. (password, random);
  spake_finish = λ state message. some state;
}

tag_of : (p c : Bytes) → some (replicate 16 0 ++ p) ≡ some c → replicate 16 0 ++ p ≡ c
tag_of p c h = cc h

pub toy-IsSound : IsSound toy
toy-IsSound = record {
  decrypt-encrypt = λ key nonce plaintext ciphertext h.
      ap (λ c. some (drop 16 c)) (sym (tag_of plaintext ciphertext h));
  length-sha256 = λ b. refl;
  length-hkdf = λ key purpose. refl;
  length-encrypt = λ key nonce plaintext ciphertext h.
      sym (ap length (tag_of plaintext ciphertext h)) ∙ omega arith;
  length-hex_encode = λ b. length-append b b;
}

pub toy-IsSymmetric : IsSymmetric toy
unfolding IsSymmetric
toy-IsSymmetric random random' password identity = refl
