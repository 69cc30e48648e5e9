-- ===== src/Core/Key.antt =====
-- src/core/key.rs: deriving keys, and encrypting the messages of the wormhole. A `Key<P>` is its
-- bytes; the purpose `P` is a phantom type.
pub mod Laws
pub mod Encoding
pub mod Codecs
use magic_wormhole_rs.Common.{
  ℕ, ◌≡◌, refl, List, [], ◌∷◌, ◌++◌, Option, none, some, Bool, true, false, Bytes, Outcome, ok, err,
  panic, length, take, drop, ltb, if◌then◌else◌,
}
use mathlib.Core.Option
use magic_wormhole_rs.Common.Text.{codes}
use magic_wormhole_rs.Core.Json.{null}
use magic_wormhole_rs.Core.Names.{AppId, EitherSide, MySide, Phase, version}
use magic_wormhole_rs.Core.Messages.{Value, EncryptedMessage}
use magic_wormhole_rs.Core.Crypto.{Crypto, Codec}

abbrev pub Key : Type 0
Key = Bytes

abbrev pub Nonce : Type 0
Nonce = Bytes

-- `XSalsa20Poly1305`'s nonce size.
abbrev pub nonce_size : ℕ
nonce_size = 24

pub record PhaseMessage : Type 0 where
  pub pake_v1 : Bytes

pub record VersionsMessage : Type 0 where
  pub abilities : List Bytes
  pub app_versions : Value

-- `VersionsMessage::new`; the default of a JSON value is null.
abbrev pub new_versions : VersionsMessage
new_versions = record { abilities = []; app_versions = null }

unfoldable pub set_app_versions : Value → VersionsMessage → VersionsMessage
set_app_versions v m = record m { app_versions = v }

unfoldable pub add_resume_ability : VersionsMessage → VersionsMessage
add_resume_ability m = record m { abilities = m.abilities ++ (codes "resume-v1" ∷ []) }

module _ (c : Crypto) where
  unfoldable pub to_hex : Key → Bytes
  to_hex key = c.hex_encode key

  unfoldable pub derive_key : Key → Bytes → Key
  derive_key key purpose = c.hkdf key purpose

  unfoldable pub derive_subkey_from_purpose : Key → Bytes → Key
  unfolding derive_key
  derive_subkey_from_purpose key purpose = derive_key key purpose

  unfoldable pub derive_transit_key : Key → AppId → Key
  unfolding derive_subkey_from_purpose
  derive_transit_key key appid = derive_subkey_from_purpose key (appid ++ codes "/transit-key")

  -- The purpose that `derive_phase_key` builds.
  unfoldable pub phase_purpose : EitherSide → Phase → Bytes
  phase_purpose side phase = codes "wormhole:phase:" ++ (c.sha256 side ++ c.sha256 phase)

  unfoldable pub derive_phase_key : EitherSide → Key → Phase → Key
  unfolding derive_key phase_purpose
  derive_phase_key side key phase = derive_key key (phase_purpose side phase)

  unfoldable pub derive_verifier : Key → Key
  unfolding derive_key
  derive_verifier key = derive_key key (codes "wormhole:verifier")

  -- `make_pake`, with the scalar that SPAKE2 draws: the state, and the serialized message.
  unfoldable pub make_pake : Codec PhaseMessage → Bytes → Bytes → AppId → Bytes × Bytes
  make_pake json random password appid =
      let (pake_state, msg1) = c.spake_start random password appid in
      (pake_state, json.to_vec (record { pake_v1 = msg1 }))

  -- `none` is the panic of `unwrap`.
  unfoldable pub encrypt_data_with_nonce : Key → Bytes → Nonce → Option Bytes
  encrypt_data_with_nonce key plaintext nonce =
      Option.map (λ ciphertext. nonce ++ ciphertext) (c.encrypt key nonce plaintext)

  -- `encrypt_data`, with the nonce that it draws.
  unfoldable pub encrypt_data : Nonce → Key → Bytes → Option Bytes
  unfolding encrypt_data_with_nonce
  encrypt_data nonce key plaintext = encrypt_data_with_nonce key plaintext nonce

  -- `split_at` panics on fewer bytes than a nonce has.
  unfoldable pub decrypt_data : Key → Bytes → Outcome ⊥ (Option Bytes)
  decrypt_data key encrypted =
      if ltb (length encrypted) nonce_size
      then panic
      else ok (c.decrypt key (take nonce_size encrypted) (drop nonce_size encrypted))

  -- `EncryptedMessage::decrypt` of src/core/server_messages.rs.
  unfoldable pub decrypt : EncryptedMessage → Key → Outcome ⊥ (Option Bytes)
  unfolding decrypt_data derive_phase_key
  decrypt m key = decrypt_data (derive_phase_key m.side key m.phase) m.body

  -- `build_version_msg`
  unfoldable pub build_version_msg :
      Codec VersionsMessage → Nonce → MySide → Key → VersionsMessage → Option (Phase × Bytes)
  unfolding derive_phase_key encrypt_data
  build_version_msg json nonce side key versions =
      Option.map (λ encrypted. (version, encrypted))
        (encrypt_data nonce (derive_phase_key side key version) (json.to_vec versions))

pake_of : PhaseMessage → Bytes
pake_of m = m.pake_v1

-- `extract_pake_msg`; `none` is the JSON error.
unfoldable pub extract_pake_msg : Codec PhaseMessage → Bytes → Option Bytes
unfolding pake_of
extract_pake_msg json body = Option.map pake_of (json.from_slice body)
