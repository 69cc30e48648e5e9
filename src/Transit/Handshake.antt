-- ===== src/Transit/Handshake.antt =====
-- `handshake_exchange` of src/transit.rs.
use magic_wormhole_rs.Common.{
  ◌++◌, Bool, true, false, Bytes, ok, Action, ◌>>=◌, ◌>>◌, return, ensure, if◌then◌else◌, bytes_eq,
}
use magic_wormhole_rs.Common.Text.{codes}
use magic_wormhole_rs.Core.Crypto.{Crypto}
use magic_wormhole_rs.Core.Key.{Key, derive_subkey_from_purpose, to_hex}
use magic_wormhole_rs.Transit.Hints.{HostType, direct, relay_host}
use magic_wormhole_rs.Transit.Socket.{IoError, Socket, read_exact, write_all}
use magic_wormhole_rs.Transit.Record.{Transit, zero_nonce}

-- `TransitHandshakeError`
pub data TransitHandshakeError : Type 0 where
  handshake_failed : TransitHandshakeError
  relay_handshake_failed : TransitHandshakeError
  io : IoError → TransitHandshakeError

abbrev pub ok_msg : Bytes
ok_msg = codes "ok\n"

abbrev pub go_msg : Bytes
go_msg = codes "go\n"

module _ (c : Crypto) (key : Key) where
  unfoldable pub sub_key : Bytes → Key
  unfolding derive_subkey_from_purpose
  sub_key purpose = derive_subkey_from_purpose c key purpose

  unfoldable pub relay_request : Bytes → Bytes
  unfolding sub_key to_hex
  relay_request tside =
      codes "please relay "
      ++ (to_hex c (sub_key (codes "transit_relay_token"))
          ++ (codes " for side " ++ (tside ++ codes "\n")))

  -- What the leader writes first, and what the follower expects in front of `go`.
  unfoldable pub leader_msg : Bytes
  unfolding sub_key to_hex
  leader_msg =
      codes "transit sender " ++ (to_hex c (sub_key (codes "transit_sender")) ++ codes " ready\n\n")

  unfoldable pub follower_msg : Bytes
  unfolding sub_key to_hex
  follower_msg =
      codes "transit receiver "
      ++ (to_hex c (sub_key (codes "transit_receiver")) ++ codes " ready\n\n")

  -- The keys for receiving and for sending.
  unfoldable pub record_keys : Bool → Key × Key
  unfolding sub_key
  record_keys is_leader =
      if is_leader
      then (
        sub_key (codes "transit_record_receiver_key"),
        sub_key (codes "transit_record_sender_key"),
      )
      else (
        sub_key (codes "transit_record_sender_key"),
        sub_key (codes "transit_record_receiver_key"),
      )

  unfoldable pub relay_handshake : HostType → Bytes → Action Socket TransitHandshakeError (Unit {0})
  relay_handshake direct tside = return tt
  relay_handshake relay_host tside = do
    write_all io (relay_request tside)
    rx ← read_exact io 3
    ensure (bytes_eq ok_msg rx) relay_handshake_failed

  unfoldable pub peer_handshake : Bool → Action Socket TransitHandshakeError (Unit {0})
  peer_handshake true = do
    write_all io leader_msg
    rx ← read_exact io 89
    ensure (bytes_eq rx follower_msg) handshake_failed
  peer_handshake false = do
    write_all io follower_msg
    rx ← read_exact io 90
    ensure (bytes_eq rx (leader_msg ++ go_msg)) handshake_failed

  unfoldable pub established : Bool → Socket → Transit
  unfolding record_keys
  established is_leader socket =
      let (rkey, skey) = record_keys is_leader in
      record { socket = socket; skey = skey; rkey = rkey; snonce = zero_nonce; rnonce = zero_nonce }

  unfoldable pub handshake_exchange :
      Bool → Bytes → HostType → Action Socket TransitHandshakeError Transit
  unfolding relay_handshake peer_handshake established
  handshake_exchange is_leader tside host_type = do
    relay_handshake host_type tside
    peer_handshake is_leader
    λ socket. (ok (established is_leader socket), socket)
