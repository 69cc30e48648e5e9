-- ===== src/Core/Connect.antt =====
-- Establishing a wormhole in src/core.rs: the handshake between the two clients, and the two ways
-- to come to it. `panic` covers the `unwrap` of an encryption that fails.
pub mod Steps
pub mod Agreement
pub mod Versions
pub mod Schedule
pub mod Completion
use magic_wormhole_rs.Common.{
  ℕ, Option, none, some, Bytes, Outcome, ok, err, panic, pending, Action, after, ◌>>=◌, ◌>>◌,
  expect, ok_or, if◌then◌else◌, ◌⊎◌,
}
use magic_wormhole_rs.Core.Names.{AppId, AppConfig, pake, MySide}
use magic_wormhole_rs.Core.Code.{Code, new, nameplate}
use magic_wormhole_rs.Core.Messages.{Value}
use magic_wormhole_rs.Core.Crypto.{Crypto, Codec}
use magic_wormhole_rs.Core.Key.{
  Key, Nonce, PhaseMessage, VersionsMessage, new_versions, set_app_versions, make_pake,
  extract_pake_msg, build_version_msg, decrypt, derive_verifier,
}
use magic_wormhole_rs.Core.Rendezvous.Wire.{Connection, WsError, RendezvousError, malformed}
use magic_wormhole_rs.Core.Rendezvous.Server.{
  RendezvousServer, send_peer_message, next_peer_message_some,
}
use magic_wormhole_rs.Core.Rendezvous.Setup.{
  connect, allocate_claim_open, claim_open, needs_nameplate_release, release_nameplate,
}
use magic_wormhole_rs.Core.Wormhole.{
  Wormhole, WormholeError, protocol_json, pake_failed, from_server,
}

pub record WormholeWelcome : Type 0 where
  pub motd : Option Bytes
  pub code : Code

-- What the handshake takes from outside: the crates, and the random scalar and nonce that it draws.
pub record Env : Type 0 where
  pub crypto : Crypto
  pub phase_json : Codec PhaseMessage
  pub versions_json : Codec VersionsMessage
  pub pake_random : Bytes
  pub version_nonce : Nonce

abbrev pub Handshake : Type 0 → Type 0
Handshake = Action RendezvousServer WormholeError

pub on_rendezvous : {A : Type 0} → Action RendezvousServer RendezvousError A → Handshake A
on_rendezvous f s = let (o, t) = f s in (from_server o, t)

module _ (env : Env) where
  open env use {crypto, phase_json, versions_json, pake_random, version_nonce}

  -- Build and send the versions message.
  send_versions : Key → Value → Handshake (Unit {0})
  unfolding on_rendezvous
  send_versions key app_versions s =
      after
        (expect
          (build_version_msg crypto versions_json version_nonce s.side key
            (set_app_versions app_versions new_versions))
          s)
        λ p. on_rendezvous (send_peer_message p.0 p.1)

  -- `peer_version.decrypt(&key).ok_or(PakeFailed).and_then(…)`
  open_versions : Outcome ⊥ (Option Bytes) → Handshake VersionsMessage
  open_versions (ok none) s = (err pake_failed, s)
  open_versions (ok (some plaintext)) s =
      ok_or (versions_json.from_slice plaintext) (protocol_json malformed) s
  open_versions (err e) s = absurd e
  open_versions panic s = (panic, s)
  open_versions pending s = (pending, s)

  pub release_if_needed : Handshake (Unit {0})
  unfolding on_rendezvous
  release_if_needed s =
      if needs_nameplate_release s then on_rendezvous release_nameplate s else (ok tt, s)

  finish : AppId → Key → Value → Handshake Wormhole
  finish appid key peer_version s = (
    ok (record {
      server = s;
      phase = 0;
      key = key;
      appid = appid;
      verifier = derive_verifier crypto key;
      peer_version = peer_version;
    }),
    s,
  )

  -- `connect_custom` up to the key.
  unfoldable pub exchange_pake : AppId → Bytes → Handshake Key
  unfolding on_rendezvous
  exchange_pake appid password =
      let (pake_state, pake_msg_ser) = make_pake crypto phase_json pake_random password appid in
      do
        on_rendezvous (send_peer_message pake pake_msg_ser)
        reply ← on_rendezvous next_peer_message_some
        peer_pake ← ok_or (extract_pake_msg phase_json reply.body) (protocol_json malformed)
        ok_or (crypto.spake_finish pake_state peer_pake) pake_failed

  -- `connect_custom` from the key on.
  unfoldable pub exchange_versions : AppId → Key → Value → Handshake Wormhole
  unfolding on_rendezvous send_versions open_versions release_if_needed finish
  exchange_versions appid key app_versions = do
    send_versions key app_versions
    peer_version ← on_rendezvous next_peer_message_some
    versions ← open_versions (decrypt crypto peer_version key)
    release_if_needed
    finish appid key versions.app_versions

  -- `Wormhole::connect_custom`, on the server that it is given.
  unfoldable pub connect_custom : AppId → Bytes → Value → Handshake Wormhole
  unfolding exchange_pake exchange_versions
  connect_custom appid password app_versions = do
    key ← exchange_pake appid password
    exchange_versions appid key app_versions

  -- The arguments of `RendezvousServer::connect` that are not the program's: hashcash minting, the
  -- side drawn, and the outcome of opening the websocket.
  start :
      (Bytes → ℕ → Option Bytes)
      → MySide
      → Connection ⊎ WsError
      → AppId
      → Outcome WormholeError (RendezvousServer × Option Bytes)
  start mint side socket appid = from_server (connect mint appid side socket)

  module _ (mint : Bytes → ℕ → Option Bytes) (side : MySide) (socket : Connection ⊎ WsError) where
    -- What `connect_without_code` gives back: the welcome, and the server on which the returned
    -- future runs `connect_custom` with the code as the password.
    allocated :
        Bytes
        → Option Bytes
        → Outcome RendezvousError (Bytes × Bytes) × RendezvousServer
        → Outcome WormholeError (WormholeWelcome × RendezvousServer)
    allocated words motd (ok (n, mailbox), s) = ok (record { motd = motd; code = new n words }, s)
    allocated words motd (err e, s) = from_server (err e)
    allocated words motd (panic, s) = panic
    allocated words motd (pending, s) = pending

    started_without :
        Bytes
        → Outcome WormholeError (RendezvousServer × Option Bytes)
        → Outcome WormholeError (WormholeWelcome × RendezvousServer)
    unfolding allocated
    started_without words (ok (s, motd)) = allocated words motd (allocate_claim_open s)
    started_without words (err e) = err e
    started_without words panic = panic
    started_without words pending = pending

    -- `Wormhole::connect_without_code`; `words` is what `choose_words` drew.
    unfoldable pub connect_without_code :
        AppConfig Value → Bytes → Outcome WormholeError (WormholeWelcome × RendezvousServer)
    unfolding start started_without
    connect_without_code config words = started_without words (start mint side socket config.id)

    welcomed :
        Option Bytes
        → Code
        → Outcome WormholeError Wormhole × RendezvousServer
        → Outcome WormholeError (WormholeWelcome × Wormhole)
    welcomed motd code (ok w, s) = ok (record { motd = motd; code = code }, w)
    welcomed motd code (err e, s) = err e
    welcomed motd code (panic, s) = panic
    welcomed motd code (pending, s) = pending

    claim_and_connect : AppConfig Value → Code → Handshake Wormhole
    unfolding on_rendezvous
    claim_and_connect config code = do
      on_rendezvous (claim_open (nameplate code))
      connect_custom config.id code config.app_version

    started_with :
        AppConfig Value
        → Code
        → Outcome WormholeError (RendezvousServer × Option Bytes)
        → Outcome WormholeError (WormholeWelcome × Wormhole)
    unfolding claim_and_connect welcomed
    started_with config code (ok (s, motd)) = welcomed motd code (claim_and_connect config code s)
    started_with config code (err e) = err e
    started_with config code panic = panic
    started_with config code pending = pending

    -- `Wormhole::connect_with_code`
    unfoldable pub connect_with_code :
        AppConfig Value → Code → Outcome WormholeError (WormholeWelcome × Wormhole)
    unfolding start started_with
    connect_with_code config code = started_with config code (start mint side socket config.id)
