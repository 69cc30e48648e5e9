-- ===== src/Core/Connect/Agreement.antt =====
-- The two clients of one code, after `connect_custom` of src/core.rs.
use magic_wormhole_rs.Common.{◌≡◌, refl, List, ◌∷◌, some, Bytes, ok, ap, ◌∙◌, sym}
use magic_wormhole_rs.Core.Names.{AppId}
use magic_wormhole_rs.Core.Messages.{EncryptedMessage, Value}
use magic_wormhole_rs.Core.Crypto.{Crypto, Codec, IsSymmetric}
use magic_wormhole_rs.Core.Key.{Nonce, PhaseMessage, make_pake, extract_pake_msg, derive_verifier}
use magic_wormhole_rs.Core.Rendezvous.Server.{RendezvousServer}
use magic_wormhole_rs.Core.Rendezvous.Todo.{todo}
use magic_wormhole_rs.Core.Wormhole.{Wormhole}
use magic_wormhole_rs.Core.Connect.Steps.{Connected, connect_custom-Connected}
use magic_wormhole_rs.Core.Connect.{Env, connect_custom}

-- serde_json reads back what it wrote.
unfoldable pub ReadsBack : {A : Type 0} → Codec A → Type 0
ReadsBack json = (m : _) → json.from_slice (json.to_vec m) ≡ some m

extract_pake_msg-make_pake :
    (crypto : Crypto) (json : Codec PhaseMessage) (random password : Bytes) (appid : AppId)
    → ReadsBack json
    → extract_pake_msg json (make_pake crypto json random password appid).1
      ≡ some (crypto.spake_start random password appid).1
unfolding extract_pake_msg make_pake ReadsBack
extract_pake_msg-make_pake crypto json random password appid back =
    rw (back (record { pake_v1 = (crypto.spake_start random password appid).1 })) refl

-- The key that a client comes to when the first message for it is the other one's PAKE message.
key-met :
    (env : Env) (random password : Bytes) (appid : AppId) (s : RendezvousServer) (w : Wormhole)
    (m : EncryptedMessage) (rest : List EncryptedMessage)
    → ReadsBack env.phase_json
    → todo s ≡ m ∷ rest
    → m.body ≡ (make_pake env.crypto env.phase_json random password appid).1
    → Connected env appid password s w
    → env.crypto.spake_finish
        (env.crypto.spake_start env.pake_random password appid).0
        (env.crypto.spake_start random password appid).1
      ≡ some w.key
unfolding make_pake
key-met env random password appid s w m rest back t b c =
    let same : c.reply ≡ m = cc (sym c.first ∙ t) in
    let got : some c.peer_pake ≡ some (env.crypto.spake_start random password appid).1 =
      sym c.extracted
      ∙ ap (λ x. extract_pake_msg env.phase_json x.body) same
      ∙ ap (extract_pake_msg env.phase_json) b
      ∙ extract_pake_msg-make_pake env.crypto env.phase_json random password appid back in
    ap (env.crypto.spake_finish (env.crypto.spake_start env.pake_random password appid).0)
      (sym (cc got))
    ∙ c.finished

-- Two clients of one application and one code whose `connect_custom` ends well, each of them with the
-- other one's PAKE message before any other message, hold the same key and the same verifier. SPAKE2
-- is to be symmetric, and serde_json to read back a PAKE message that it wrote.
pub connect_custom-Agree :
    (env : Env) (random : Bytes) (nonce : Nonce) (appid : AppId) (password : Bytes)
    (app_a app_b : Value) (s t s' t' : RendezvousServer) (w w' : Wormhole) (m m' : EncryptedMessage)
    (rest rest' : List EncryptedMessage)
    → IsSymmetric env.crypto
    → ReadsBack env.phase_json
    → todo s ≡ m ∷ rest
    → m.body ≡ (make_pake env.crypto env.phase_json random password appid).1
    → todo s' ≡ m' ∷ rest'
    → m'.body ≡ (make_pake env.crypto env.phase_json env.pake_random password appid).1
    → connect_custom env appid password app_a s ≡ (ok w, t)
    → connect_custom
        (record env { pake_random = random; version_nonce = nonce })
        appid
        password
        app_b
        s'
      ≡ (ok w', t')
    → (w.key ≡ w'.key) × (w.verifier ≡ w'.verifier)
unfolding IsSymmetric
connect_custom-Agree env random nonce appid password app_a app_b s t s' t' w w' m m' rest rest'
      sym_c back q b q' b' h h' =
    let other : Env = record env { pake_random = random; version_nonce = nonce } in
    let c : Connected env appid password s w =
      connect_custom-Connected env appid password app_a s t w h in
    let c' : Connected other appid password s' w' =
      connect_custom-Connected other appid password app_b s' t' w' h' in
    let here : _ = key-met env random password appid s w m rest back q b c in
    let there : _ = key-met other env.pake_random password appid s' w' m' rest' back q' b' c' in
    let one : w.key ≡ w'.key =
      cc (sym here ∙ sym_c env.pake_random random password appid ∙ there) in
    (one, c.verified ∙ ap (derive_verifier env.crypto) one ∙ sym c'.verified)
