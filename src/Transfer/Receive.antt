-- ===== src/Transfer/Receive.antt =====
-- `request_file`, and `accept` and `reject` of a `ReceiveRequest`, of src/transfer.rs.
use magic_wormhole_rs.Common.{ℕ, true, Bytes, Action, after, ◌>>=◌, ◌>>◌, return, fail}
use magic_wormhole_rs.Common.Text.{codes}
use magic_wormhole_rs.Core.Crypto.{Crypto}
use magic_wormhole_rs.Transit.Record.{Transit}
use magic_wormhole_rs.Transit.Connect.{follower_connect}
use magic_wormhole_rs.Transfer.Messages.{
  TransferError, unsupported_offer, peer_error, protocol_unexpected_message, PeerMessage, error,
  offer, file, directory, new_file_ack, new_error_message,
}
use magic_wormhole_rs.Transfer.Records.{tcp_file_receive}
use magic_wormhole_rs.Transfer.Session.{
  Session, Env, Peer, tell, hear, complain, send_transit, receive_transit, transit_key, connected,
  reported,
}

-- `ReceiveRequest`, less the wormhole, which is the session's.
pub record ReceiveRequest : Type 0 where
  pub filename : Bytes
  pub filesize : ℕ
  pub peer : Peer

-- `set_zip` is `PathBuf::set_extension("zip")`.
module _ (c : Crypto) (env : Env) (set_zip : Bytes → Bytes) where
  unfoldable pub offered : PeerMessage → Action Session TransferError (Bytes × ℕ)
  unfolding complain
  offered (offer (file filename filesize)) = return (filename, filesize)
  offered (offer (directory dirname mode zipsize numbytes numfiles)) =
      return (set_zip dirname, zipsize)
  offered (offer other) = fail unsupported_offer
  offered (error e) = fail (peer_error e)
  offered other = complain c env (protocol_unexpected_message (codes "offer") other)

  -- `request_file`
  unfoldable pub request_file : Action Session TransferError ReceiveRequest
  unfolding send_transit receive_transit hear offered
  request_file = do
    send_transit c env
    peer ← receive_transit c env
    maybe_offer ← hear c env
    (filename, filesize) ← offered maybe_offer
    return (record { filename = filename; filesize = filesize; peer = peer })

module _ (c : Crypto) (env : Env) where
  -- The content written so far is kept in the result, whatever the outcome.
  unfoldable pub receive_content : ℕ → Transit → Action (Session × Bytes) TransferError (Unit {0})
  unfolding tcp_file_receive reported
  receive_content filesize t (s, content) =
      let (o, d) =
        tcp_file_receive c env.ack_json filesize
          (record { transit = t; content = content; writable = true }) in
      let (a, u) = reported c env o s in (a, (u, d.content))

  unfoldable pub follow : Peer → Action Session TransferError Transit
  unfolding follower_connect transit_key connected
  follow peer s =
      connected c env
        (follower_connect
          (env.attempts (transit_key c env s) peer.their_abilities peer.their_hints))
        s

  -- `accept` up to the connection.
  unfoldable pub acknowledge : ReceiveRequest → Action Session TransferError Transit
  unfolding tell follow
  acknowledge req = do tell c env (new_file_ack (codes "ok")); follow req.peer

  -- `ReceiveRequest::accept`, with a content handler that does not fail.
  unfoldable pub accept : ReceiveRequest → Action (Session × Bytes) TransferError (Unit {0})
  unfolding acknowledge receive_content
  accept req (s, content) =
      let (o, t) = acknowledge req s in after (o, (t, content)) (receive_content req.filesize)

  -- `ReceiveRequest::reject`
  unfoldable pub reject : Action Session TransferError (Unit {0})
  unfolding tell
  reject = tell c env (new_error_message (codes "transfer rejected"))
