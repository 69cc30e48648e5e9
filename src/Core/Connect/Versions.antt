-- ===== src/Core/Connect/Versions.antt =====
-- What each client learns of the other's version, in `connect_custom` of src/core.rs.
use mathlib.Core.Option
use magic_wormhole_rs.Common.{◌≡◌, List, ◌∷◌, Option, none, some, Bytes, ok, ap, ◌∙◌, sym, length}
use magic_wormhole_rs.Core.Names.{AppId, Phase, version}
use magic_wormhole_rs.Core.Messages.{EncryptedMessage, Value}
use magic_wormhole_rs.Core.Crypto.{Crypto, Codec, IsSound}
use magic_wormhole_rs.Core.Key.{
  Key, Nonce, VersionsMessage, new_versions, set_app_versions, build_version_msg, decrypt,
  encrypt_data, derive_phase_key,
}
use magic_wormhole_rs.Core.Key.Laws.{decrypt_data-encrypt_data}
use magic_wormhole_rs.Core.Rendezvous.Server.{RendezvousServer}
use magic_wormhole_rs.Core.Rendezvous.Todo.{todo}
use magic_wormhole_rs.Core.Wormhole.{Wormhole}
use magic_wormhole_rs.Core.Connect.Steps.{Connected, connect_custom-Connected}
use magic_wormhole_rs.Core.Connect.{Env, connect_custom}

second-met :
    (a b x y : EncryptedMessage) (xs ys zs : List EncryptedMessage)
    → xs ≡ x ∷ ys
    → a ∷ xs ≡ b ∷ y ∷ zs
    → x ≡ y
second-met a b x y xs ys zs h k = let tails : xs ≡ y ∷ zs = cc k in cc (sym h ∙ tails)

made_of :
    (o : Option Bytes) (b : Bytes)
    → Option.map {B = Phase × Bytes} (λ x. (version, x)) o ≡ some (version, b)
    → o ≡ some b
made_of none b h = cc
made_of (some x) b h =
    let same : Path (Phase × Bytes) (version, x) (version, b) = cc h in ap (λ p. some p.1) same

-- A version message is opened with the key that it was sealed under.
decrypt-build_version_msg :
    (crypto : Crypto) (json : Codec VersionsMessage) (nonce : Nonce) (key : Key)
    (versions : VersionsMessage) (m : EncryptedMessage)
    → IsSound crypto
    → length nonce ≡ 24
    → m.phase ≡ version
    → build_version_msg crypto json nonce m.side key versions ≡ some (version, m.body)
    → decrypt crypto m key ≡ ok (some (json.to_vec versions))
unfolding decrypt build_version_msg
decrypt-build_version_msg crypto json nonce key versions m sound n p h =
    let sealed : encrypt_data crypto nonce (derive_phase_key crypto m.side key version)
          (json.to_vec versions)
        ≡ some m.body =
      made_of _ m.body h in
    rw p (
      decrypt_data-encrypt_data crypto sound (derive_phase_key crypto m.side key version)
        (json.to_vec versions) nonce m.body n sealed)

-- A client whose `connect_custom` ends well, and whose second message is the version message that
-- the peer made with the same key, a nonce of 24 bytes and some application version, takes that for
-- the peer's version. The ciphers are to do what they document, and serde_json to read back
-- that message.
pub connect_custom-Versions :
    (env : Env) (appid : AppId) (password : Bytes) (own_app peer_app : Value) (nonce : Nonce)
    (s t : RendezvousServer) (w : Wormhole) (m v : EncryptedMessage) (rest : List EncryptedMessage)
    → IsSound env.crypto
    → env.versions_json.from_slice
        (env.versions_json.to_vec (set_app_versions peer_app new_versions))
      ≡ some (set_app_versions peer_app new_versions)
    → length nonce ≡ 24
    → todo s ≡ m ∷ v ∷ rest
    → v.phase ≡ version
    → build_version_msg env.crypto env.versions_json nonce v.side w.key
        (set_app_versions peer_app new_versions)
      ≡ some (version, v.body)
    → connect_custom env appid password own_app s ≡ (ok w, t)
    → w.peer_version ≡ peer_app
unfolding set_app_versions
connect_custom-Versions env appid password own_app peer_app nonce s t w m v rest sound back n q p
      made h =
    let versions : VersionsMessage = set_app_versions peer_app new_versions in
    let c : Connected env appid password s w =
      connect_custom-Connected env appid password own_app s t w h in
    let same : c.second_reply ≡ v =
      second-met c.reply m c.second_reply v c.rest c.later rest c.second (sym c.first ∙ q) in
    let opened : ok (some c.plaintext) ≡ ok (some (env.versions_json.to_vec versions)) =
      sym c.decrypted
      ∙ ap (λ x. decrypt env.crypto x w.key) same
      ∙ decrypt-build_version_msg env.crypto env.versions_json nonce w.key versions v sound n p
          made in
    let text : c.plaintext ≡ env.versions_json.to_vec versions = cc opened in
    let read : some c.versions ≡ some versions =
      sym c.parsed ∙ ap env.versions_json.from_slice text ∙ back in
    let same_versions : c.versions ≡ versions = cc read in
    c.told ∙ ap (λ x. x.app_versions) same_versions
