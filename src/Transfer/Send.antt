-- ===== src/Transfer/Send.antt =====
-- `send_file` of src/transfer.rs.
use magic_wormhole_rs.Common.{
  ℕ, List, Bytes, Action, after, ◌>>=◌, ◌>>◌, return, fail, ok_or, ensure, bytes_eq,
}
use magic_wormhole_rs.Common.Text.{codes}
use magic_wormhole_rs.Core.Crypto.{Crypto, Codec}
use magic_wormhole_rs.Transit.Hints.{all_abilities}
use magic_wormhole_rs.Transit.Record.{Transit}
use magic_wormhole_rs.Transit.Connect.{leader_connect}
use magic_wormhole_rs.Transfer.Messages.{
  TransferError, ack_error, checksum, peer_error, protocol_json, protocol_unexpected_message,
  PeerMessage, error, answer, file_ack, TransitAck, new_offer_file,
}
use magic_wormhole_rs.Transfer.Records.{Read, send_records, from_transit}
use magic_wormhole_rs.Transfer.Session.{
  Session, Env, Peer, tell, hear, complain, send_transit, receive_transit, transit_key, connected,
  reported,
}
use magic_wormhole_rs.Transit.Record.{receive_record}

module _ (c : Crypto) where
  unfoldable pub receive_ack_record : Action Transit TransferError Bytes
  unfolding receive_record
  receive_ack_record t = let (o, u) = receive_record c t in (from_transit o, u)

  -- The checksum that the peer acknowledges.
  unfoldable pub receive_transit_ack :
      Codec TransitAck → Bytes → Action Transit TransferError (Unit {0})
  unfolding receive_ack_record
  receive_transit_ack json sum = do
    transit_ack ← receive_ack_record
    transit_ack_msg ← ok_or (json.from_slice transit_ack) protocol_json
    ensure (bytes_eq transit_ack_msg.sha256 (c.hex_encode sum)) checksum

module _ (c : Crypto) (env : Env) where
  unfoldable pub acknowledged : PeerMessage → Action Session TransferError (Unit {0})
  unfolding complain
  acknowledged (answer (file_ack msg)) = ensure (bytes_eq msg (codes "ok")) ack_error
  acknowledged (error e) = fail (peer_error e)
  acknowledged other = complain c env (protocol_unexpected_message (codes "answer/file_ack") other)

  -- `send_file` up to the connection.
  unfoldable pub offer_file : Bytes → ℕ → Action Session TransferError Peer
  unfolding send_transit tell receive_transit hear acknowledged
  offer_file file_name file_size = do
    send_transit c env
    tell c env (new_offer_file file_name file_size)
    peer ← receive_transit c env
    fileack_msg ← hear c env
    acknowledged fileack_msg
    return peer

  -- The leader's connection.
  unfoldable pub lead : Peer → Action Session TransferError Transit
  unfolding leader_connect transit_key connected
  lead peer s =
      connected c env
        (leader_connect all_abilities
          (env.attempts (transit_key c env s) peer.their_abilities peer.their_hints))
        s

  -- The records, and the acknowledgement behind them.
  unfoldable pub send_content : ℕ → List Read → Transit → Action Session TransferError (Unit {0})
  unfolding send_records reported receive_transit_ack
  send_content file_size file t s =
      let (o, u) = send_records c file_size file t in
      after (reported c env o s)
        λ sum v. let (a, w) = receive_transit_ack c env.ack_json sum u in (a, v)

  -- `send_file`
  unfoldable pub send_file : Bytes → ℕ → List Read → Action Session TransferError (Unit {0})
  unfolding offer_file lead send_content
  send_file file_name file_size file = do
    peer ← offer_file file_name file_size
    t ← lead peer
    send_content file_size file t
