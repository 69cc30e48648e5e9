-- ===== src/Transfer/Session/RoundTrip.antt =====
-- What one side tells the other over the wormhole is what the other hears.
use magic_wormhole_rs.Common.{
  ◌<◌, ◌^◌, ◌≡◌, refl, ap, ◌∙◌, [], ◌∷◌, ◌++◌, Bytes, Outcome, ok, err, length,
}
use magic_wormhole_rs.Core.Crypto.{Crypto, IsSound}
use magic_wormhole_rs.Core.Json.Text.{JsonText, IsFaithful}
use magic_wormhole_rs.Core.Messages.{EncryptedMessage, add}
use magic_wormhole_rs.Core.Rendezvous.Server.{RendezvousServer, next_peer_message_some}
use magic_wormhole_rs.Core.Wormhole.{WormholeError, send, receive}
use magic_wormhole_rs.Core.Wormhole.RoundTrip.{receive-send}
use magic_wormhole_rs.Transfer.Messages.{TransferError, PeerMessage, error, peer_error}
use magic_wormhole_rs.Transfer.Messages.RoundTrip.{IsPrintable}
use magic_wormhole_rs.Transfer.Session.{
  Session, Env, from_wormhole, send_plaintext, tell, hear, Peer, complain, receive_transit, peer_of,
}
use magic_wormhole_rs.Transfer.Session.PeerText.{peer_codec, peer_codec-back}

from_wormhole-ok : (o : Outcome WormholeError (Unit {0})) → from_wormhole o ≡ ok tt → o ≡ ok tt
from_wormhole-ok (ok tt) h = refl
from_wormhole-ok _ h = cc

send_plaintext-sends :
    (c : Crypto) (env : Env) (s t : Session) (b : Bytes)
    → send_plaintext c env b s ≡ (ok tt, t)
    → send c (s.nonces s.drawn) b s.wormhole ≡ (ok tt, t.wormhole)
unfolding send_plaintext
send_plaintext-sends c env s t b h =
    let said : (send c (s.nonces s.drawn) b s.wormhole).0 ≡ ok tt =
      from_wormhole-ok _ (ap (λ r. r.0) h) in
    let left : (send c (s.nonces s.drawn) b s.wormhole).1 ≡ t.wormhole = ap (λ r. r.1.wormhole) h in
    ap (λ o. (o, (send c (s.nonces s.drawn) b s.wormhole).1)) said ∙ ap (λ w. (ok tt, w)) left

module _ (c : Crypto) (sound : IsSound c) (text : JsonText) (env env' : Env) where
  -- If the ciphers and serde_json do what they document, then a message for the peer whose numbers
  -- are in range and whose path is UTF-8, once told with a 24-byte nonce, and relayed under the
  -- teller's side to a session with the same key, is the message that is heard there.
  pub hear-tell :
      (s t r : Session) (u : RendezvousServer) (m : PeerMessage) (x : EncryptedMessage)
      → IsFaithful text
      → IsPrintable m
      → env.json ≡ peer_codec text
      → env'.json ≡ peer_codec text
      → length (s.nonces s.drawn) ≡ 24
      → s.wormhole.phase < 2 ^ 64
      → tell c env m s ≡ (ok tt, t)
      → t.wormhole.server.connection.sent
        ≡ s.wormhole.server.connection.sent ++ (add x.phase x.body ∷ [])
      → x.side ≡ s.wormhole.server.side
      → r.wormhole.key ≡ s.wormhole.key
      → next_peer_message_some r.wormhole.server ≡ (ok x, u)
      → hear c env' r ≡ (ok m, record r { wormhole = record r.wormhole { server = u } })
  unfolding tell hear
  hear-tell s t r u m x faithful p j j' n small h relayed side key next =
      let (b, written, back) = peer_codec-back text m faithful p in
      let sent : send c (s.nonces s.drawn) b s.wormhole ≡ (ok tt, t.wormhole) =
        send_plaintext-sends c env s t b (rw (j, written) at h) in
      let heard : receive c r.wormhole ≡ (ok b, record r.wormhole { server = u }) =
        receive-send c sound s.wormhole t.wormhole r.wormhole u (s.nonces s.drawn) b x n small sent
          relayed side key next in
      rw (heard, j', back) refl

  -- If the ciphers and serde_json do what they document, then an error for which `complain` gets its
  -- message through, with a 24-byte nonce, is returned as it is by `complain`; and on the other side,
  -- with the same key, the wait for a transit message ends with the error's text as the peer's error.
  pub receive_transit-complain :
      (s t r : Session) (u : RendezvousServer) (e : TransferError) (x : EncryptedMessage)
      → IsFaithful text
      → env.json ≡ peer_codec text
      → env'.json ≡ peer_codec text
      → length (s.nonces s.drawn) ≡ 24
      → s.wormhole.phase < 2 ^ 64
      → tell c env (error (env.display e)) s ≡ (ok tt, t)
      → t.wormhole.server.connection.sent
        ≡ s.wormhole.server.connection.sent ++ (add x.phase x.body ∷ [])
      → x.side ≡ s.wormhole.server.side
      → r.wormhole.key ≡ s.wormhole.key
      → next_peer_message_some r.wormhole.server ≡ (ok x, u)
      → (Path (Outcome TransferError Peer × Session) (complain c env e s) (err e, t))
        × (receive_transit c env' r ≡ (
          err (peer_error (env.display e)),
          record r { wormhole = record r.wormhole { server = u } },
        ))
  unfolding complain receive_transit peer_of
  receive_transit-complain s t r u e x faithful j j' n small h relayed side key next =
      let heard =
        hear-tell s t r u (error (env.display e)) x faithful tt j j' n small h relayed side key
          next in
      (rw h refl, rw heard refl)
