-- ===== src/Core/Wormhole.antt =====
-- `Wormhole` of src/core.rs: sending and receiving over an established connection.
pub mod RoundTrip
use mathlib.Core.Option
use magic_wormhole_rs.Common.{
  ℕ, ◌+◌, ◌^◌, ◌≡◌, refl, List, [], ◌∷◌, ◌++◌, Option, none, some, Bool, true, false, Bytes,
  Outcome, ok, err, panic, pending, Action, after, ◌>>=◌, ◌>>◌, return, crash, fail, expect, ◌==◌,
  if◌then◌else◌,
}
use magic_wormhole_rs.Core.Names.{AppId, Mood, Phase, MySide, numeric, to_num, happy}
use magic_wormhole_rs.Core.Messages.{Value, EncryptedMessage}
use magic_wormhole_rs.Core.Crypto.{Crypto}
use magic_wormhole_rs.Core.Key.{Key, Nonce, derive_phase_key, encrypt_data, decrypt}
use magic_wormhole_rs.Core.Rendezvous.Wire.{RendezvousError, JsonError}
use magic_wormhole_rs.Core.Rendezvous.Server.{
  RendezvousServer, send_peer_message, next_peer_message_some,
}
use magic_wormhole_rs.Core.Rendezvous.Setup.{shutdown}

pub data WormholeError : Type 0 where
  protocol_json : JsonError → WormholeError
  server_error : RendezvousError → WormholeError
  protocol : Bytes → WormholeError
  pake_failed : WormholeError
  crypto : WormholeError

-- `WormholeError::is_scared`
unfoldable pub is_scared : WormholeError → Bool
is_scared pake_failed = true
is_scared e = false

-- The verifier and the peer's version are not looked at after the handshake.
pub record Wormhole : Type 0 where
  pub server : RendezvousServer
  pub phase : ℕ
  pub key : Key
  pub appid : AppId
  pub verifier : Key
  pub peer_version : Value

-- `?` on a call of the server: its error becomes a `ServerError`.
abbrev pub from_server : {A : Type 0} → Outcome RendezvousError A → Outcome WormholeError A
from_server (ok a) = ok a
from_server (err e) = err (server_error e)
from_server panic = panic
from_server pending = pending

unfoldable pub on_server :
    {A : Type 0} → Action RendezvousServer RendezvousError A → Action Wormhole WormholeError A
on_server f w = let (o, s) = f w.server in (from_server o, record w { server = s })

-- `let phase_string = Phase::numeric(self.phase); self.phase += 1`; a u64 that overflows panics,
-- since the crate is built with overflow checks.
unfoldable pub next_phase : Action Wormhole WormholeError Phase
next_phase w =
    if w.phase + 1 == 2 ^ 64
    then (panic, w)
    else (ok (numeric w.phase), record w { phase = w.phase + 1 })

module _ (c : Crypto) where
  unfoldable pub encrypt_for : Nonce → Phase → Bytes → Action Wormhole WormholeError Bytes
  encrypt_for nonce phase plaintext w =
      expect (encrypt_data c nonce (derive_phase_key c w.server.side w.key phase) plaintext) w

  -- `Wormhole::send`, with the nonce that it draws.
  unfoldable pub send : Nonce → Bytes → Action Wormhole WormholeError (Unit {0})
  unfolding next_phase encrypt_for on_server
  send nonce plaintext = do
    phase ← next_phase
    encrypted ← encrypt_for nonce phase plaintext
    on_server (send_peer_message phase encrypted)

  unfoldable pub opened : Outcome ⊥ (Option Bytes) → Action Wormhole WormholeError Bytes
  opened (ok (some plaintext)) w = (ok plaintext, w)
  opened (ok none) w = (err crypto, w)
  opened (err e) w = absurd e
  opened panic w = (panic, w)
  opened pending w = (pending, w)

  -- The body of `receive` on a message: any phase that is no number is `todo!`.
  unfoldable pub read_numbered : EncryptedMessage → Option ℕ → Action Wormhole WormholeError Bytes
  unfolding opened
  read_numbered m none w = (panic, w)
  read_numbered m (some n) w = opened (decrypt c m w.key) w

  unfoldable pub read_message : EncryptedMessage → Action Wormhole WormholeError Bytes
  unfolding read_numbered
  read_message m = read_numbered m (to_num m.phase)

  -- `Wormhole::receive`: its loop on `next_peer_message` is that of `next_peer_message_some`.
  unfoldable pub receive : Action Wormhole WormholeError Bytes
  unfolding read_message on_server
  receive = do m ← on_server next_peer_message_some; read_message m

-- `Wormhole::close`
unfoldable pub close : Action Wormhole WormholeError (Unit {0})
unfolding on_server
close = on_server (shutdown happy)
