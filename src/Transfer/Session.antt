-- ===== src/Transfer/Session.antt =====
-- The talk over the wormhole that the two sides of src/transfer.rs share.
pub mod PeerText
pub mod RoundTrip
use magic_wormhole_rs.Common.{
  ℕ, ◌+◌, List, Option, Bytes, Outcome, ok, err, panic, pending, Action, after, ◌>>=◌, return, fail,
  crash, ok_or, expect,
}
use magic_wormhole_rs.Common.Text.{codes}
use magic_wormhole_rs.Core.Crypto.{Crypto, Codec}
use magic_wormhole_rs.Core.Key.{Key, Nonce, derive_transit_key}
use magic_wormhole_rs.Core.Wormhole.{Wormhole, WormholeError, send, receive}
use magic_wormhole_rs.Transit.Hints.{Ability, Hints, all_abilities}
use magic_wormhole_rs.Transit.Record.{Transit, TransitError}
use magic_wormhole_rs.Transit.Connect.{TransitConnectError, Ended}
use magic_wormhole_rs.Transfer.Messages.{
  TransferError, wormhole_error, protocol_json, peer_error, protocol_unexpected_message,
  transit_connect, transit_error, PeerMessage, error, transit, TransitAck, new_transit, from_hints,
  into_hints,
}

-- The wormhole, the nonces that its sends draw, and how many were drawn.
pub record Session : Type 0 where
  pub wormhole : Wormhole
  pub nonces : ℕ → Nonce
  pub drawn : ℕ

-- `serialize_vec` of a message, which panics where it is `none`, and `serde_json::from_slice`.
pub record PeerCodec : Type 0 where
  pub to_vec : PeerMessage → Option Bytes
  pub from_slice : Bytes → Option PeerMessage

-- What the transfer takes from elsewhere: serde_json for its messages, the text of an error, and the
-- end of each connection attempt for the peer's abilities and hints under a transit key.
pub record Env : Type 0 where
  pub json : PeerCodec
  pub ack_json : Codec TransitAck
  pub display : TransferError → Bytes
  pub display_transit : TransitError → Bytes
  pub attempts : Key → List Ability → Hints → List Ended
  pub our_hints : Hints

pub record Peer : Type 0 where
  pub their_abilities : List Ability
  pub their_hints : Hints

-- `?` on a call of the wormhole.
abbrev pub from_wormhole : {A : Type 0} → Outcome WormholeError A → Outcome TransferError A
from_wormhole (ok a) = ok a
from_wormhole (err e) = err (wormhole_error e)
from_wormhole panic = panic
from_wormhole pending = pending

-- `let _ = …`: an error is dropped.
abbrev pub dropped : Outcome TransferError (Unit {0}) → Outcome TransferError (Unit {0})
dropped (ok a) = ok tt
dropped (err e) = ok tt
dropped panic = panic
dropped pending = pending

module _ (c : Crypto) (env : Env) where
  unfoldable pub send_plaintext : Bytes → Action Session TransferError (Unit {0})
  send_plaintext plaintext s =
      let (o, w) = send c (s.nonces s.drawn) plaintext s.wormhole in
      (from_wormhole o, record s { wormhole = w; drawn = s.drawn + 1 })

  -- `wormhole.send(message.serialize_vec())`
  unfoldable pub tell : PeerMessage → Action Session TransferError (Unit {0})
  unfolding send_plaintext
  tell m = do plaintext ← expect (env.json.to_vec m); send_plaintext plaintext

  -- `serde_json::from_slice(&wormhole.receive().await?)?`
  unfoldable pub hear : Action Session TransferError PeerMessage
  hear s =
      let (o, w) = receive c s.wormhole in
      after (from_wormhole o, record s { wormhole = w })
        λ b. ok_or (env.json.from_slice b) protocol_json

  -- `let _ = wormhole.send(PeerMessage::Error(format!("{}", error)))`, then the error.
  unfoldable pub complain {ℓ} : {A : Type ℓ} → TransferError → Action Session TransferError A
  unfolding tell
  complain e s = let (o, t) = tell (error (env.display e)) s in after (dropped o, t) λ _. fail e

  unfoldable pub send_transit : Action Session TransferError (Unit {0})
  unfolding tell from_hints all_abilities
  send_transit = tell (new_transit all_abilities (from_hints env.our_hints))

  unfoldable pub peer_of : PeerMessage → Action Session TransferError Peer
  unfolding complain into_hints
  peer_of (transit t) = do
    hints ← expect (into_hints t.hints_v1)
    return (record { their_abilities = t.abilities_v1; their_hints = hints })
  peer_of (error e) = fail (peer_error e)
  peer_of other = complain (protocol_unexpected_message (codes "transit") other)

  -- The peer's transit message.
  unfoldable pub receive_transit : Action Session TransferError Peer
  unfolding hear peer_of
  receive_transit = do m ← hear; peer_of m

  -- `wormhole.key().derive_transit_key(wormhole.appid())`
  unfoldable pub transit_key : Session → Key
  transit_key s = derive_transit_key c s.wormhole.key s.wormhole.appid

  -- What follows an attempt to connect: an error is told to the peer.
  unfoldable pub connected :
      Outcome TransitConnectError Transit → Action Session TransferError Transit
  unfolding complain
  connected (ok t) = return t
  connected (err e) = complain (transit_connect e)
  connected panic = crash
  connected pending = λ s. (pending, s)

  -- What follows the records: an error of the transit is told to the peer.
  unfoldable pub reported {ℓ} :
      {A : Type ℓ} → Outcome TransferError A → Action Session TransferError A
  unfolding complain
  reported (ok a) s = return a s
  reported (err (transit_error e)) s =
      let (o, t) = tell (error (env.display_transit e)) s in
      after (dropped o, t) λ _. fail (transit_error e)
  reported (err e) s = fail e s
  reported panic s = crash s
  reported pending s = (pending, s)
