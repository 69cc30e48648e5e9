-- ===== src/Core/Rendezvous/Wire.antt =====
-- `WsConnection` of src/core/rendezvous.rs: the websocket, one message at a time. What the socket
-- will yield is a list of events; a text frame stands for what serde_json makes of it. Each send
-- takes the next entry of `send_faults`, and succeeds where the list has ended.
use magic_wormhole_rs.Common.{
  List, [], ◌∷◌, ◌++◌, Option, none, some, Bytes, Outcome, ok, err, panic, pending, Action,
}
use magic_wormhole_rs.Core.Names.{Nameplate, Mailbox}
use magic_wormhole_rs.Core.Messages.{
  EncryptedMessage, OutboundMessage, InboundMessage, error, unknown,
}

-- `serde_json::Error`
pub data JsonError : Type 0 where
  malformed : JsonError

-- The websocket crate's error.
pub data WsError : Type 0 where
  connection_closed : WsError
  broken : Bytes → WsError

pub data RendezvousReply : Type 0 where
  allocated_reply : Nameplate → RendezvousReply
  released_reply : RendezvousReply
  claimed_reply : Mailbox → RendezvousReply
  closed_reply : RendezvousReply

-- What the text of a protocol error is formatted from.
pub data Complaint : Type 0 where
  mailbox_not_open : Complaint
  unexpected_type : InboundMessage → Complaint
  not_text : Complaint
  first_not_welcome : InboundMessage → Complaint
  expected_peer_message : InboundMessage → Complaint
  invalid_message : Bytes → RendezvousReply → Complaint

pub data RendezvousError : Type 0 where
  protocol_json : JsonError → RendezvousError
  protocol : Complaint → RendezvousError
  server : Bytes → RendezvousError
  login : List Bytes → RendezvousError
  io : WsError → RendezvousError

-- What `connection.next()` yields.
pub data WsEvent : Type 0 where
  text : InboundMessage → WsEvent
  bad_text : JsonError → WsEvent
  binary : WsEvent
  ping_frame : WsEvent
  pong_frame : WsEvent
  close_frame : WsEvent
  fault : WsError → WsEvent
  -- The stream is over.
  end_of_stream : WsEvent

abbrev pub MessageQueue : Type 0
MessageQueue = List EncryptedMessage

pub record Connection : Type 0 where
  pub incoming : List WsEvent
  pub sent : List OutboundMessage
  pub send_faults : List (Option WsError)
  -- The outcome of `close` on the socket.
  pub close_fault : Option WsError

-- A message that was read: an unknown one is skipped, and the server's error ends the call.
classify : InboundMessage → Outcome RendezvousError (Option InboundMessage)
classify unknown = ok none
classify (error e orig) = err (server e)
classify m = ok (some m)

-- `receive_message` on one event: `none` is a frame to be ignored.
unfoldable pub read_event : WsEvent → Outcome RendezvousError (Option InboundMessage)
unfolding classify
read_event (text m) = classify m
read_event (bad_text e) = err (protocol_json e)
read_event binary = err (protocol not_text)
read_event ping_frame = ok none
read_event pong_frame = ok none
read_event close_frame = err (io connection_closed)
read_event (fault e) = err (io e)
read_event end_of_stream = panic

unfoldable pub read_first :
    List WsEvent → Connection → Outcome RendezvousError (Option InboundMessage) × Connection
read_first [] c = (pending, c)
read_first (e ∷ es) c = (read_event e, record c { incoming = es })

-- `WsConnection::receive_message`
unfoldable pub receive_message : Action Connection RendezvousError (Option InboundMessage)
unfolding read_first read_event
receive_message c = read_first c.incoming c

unfoldable pub send_frame :
    List (Option WsError) → OutboundMessage → Action Connection RendezvousError (Unit {0})
send_frame [] m c = (ok tt, record c { sent = c.sent ++ (m ∷ []) })
send_frame (none ∷ fs) m c = (ok tt, record c { sent = c.sent ++ (m ∷ []); send_faults = fs })
send_frame (some e ∷ fs) m c = (err (io e), record c { send_faults = fs })

-- `self.connection.send(…).await?`
unfoldable pub send_text : OutboundMessage → Action Connection RendezvousError (Unit {0})
unfolding send_frame
send_text m c = send_frame c.send_faults m c
