-- ===== src/Core/Rendezvous/Receive.antt =====
-- The receiving loops of `WsConnection` in src/core/rendezvous.rs. They share the peer's message
-- queue with the mailbox: `none` is a mailbox that is not open yet.
use magic_wormhole_rs.Common.{
  List, [], ◌∷◌, ◌++◌, Option, none, some, Outcome, ok, err, panic, pending, Action, ◌>>◌,
}
use magic_wormhole_rs.Core.Messages.{
  EncryptedMessage, OutboundMessage, InboundMessage, allocated, claimed, released, message, closed,
  ack, error,
}
use magic_wormhole_rs.Core.Rendezvous.Wire.{
  Connection, MessageQueue, WsEvent, RendezvousError, RendezvousReply, allocated_reply,
  released_reply, claimed_reply, closed_reply, protocol, server, mailbox_not_open, unexpected_type,
  read_event, send_text,
}

-- The socket with the queue that a call may be given.
pub record Wire : Type 0 where
  pub connection : Connection
  pub queue : Option MessageQueue

-- What one round of a receiving loop does: go on with this queue, or end with this outcome.
pub data Round (A : Type 0) : Type 0 where
  again : Option MessageQueue → Round A
  stop : Outcome RendezvousError A → Round A

-- A message from the peer is put behind the others; before the mailbox is open it is an error.
unfoldable pub enqueue : {A : Type 0} → Option MessageQueue → EncryptedMessage → Round A
enqueue (some q) m = again (some (q ++ (m ∷ [])))
enqueue none m = stop (err (protocol mailbox_not_open))

-- `receive_ack` on a message that was read.
unfoldable pub ack_round : InboundMessage → Option MessageQueue → Round (Unit {0})
unfolding enqueue
ack_round ack q = stop (ok tt)
ack_round (message m) q = enqueue q m
ack_round other q = stop (err (protocol (unexpected_type other)))

-- `receive_reply` on a message that was read.
unfoldable pub reply_round : InboundMessage → Option MessageQueue → Round RendezvousReply
unfolding enqueue
reply_round (allocated n) q = stop (ok (allocated_reply n))
reply_round released q = stop (ok released_reply)
reply_round (claimed m) q = stop (ok (claimed_reply m))
reply_round closed q = stop (ok closed_reply)
reply_round (message m) q = enqueue q m
reply_round (error e orig) q = stop (err (server e))
reply_round other q = stop (err (protocol (unexpected_type other)))

-- `receive_message_some` on a message that was read.
unfoldable pub some_round : InboundMessage → Option MessageQueue → Round InboundMessage
some_round m q = stop (ok m)

-- The state that a loop leaves: its outcome, the events not read, and the queue.
abbrev pub Left : Type 0 → Type 0
Left A = Outcome RendezvousError A × List WsEvent × Option MessageQueue

module _ {A : Type 0} (round : InboundMessage → Option MessageQueue → Round A) where
  -- `self.receive_message().await?` and the round on what it gave; a frame to be ignored is `None`.
  unfoldable pub on_event :
      Outcome RendezvousError (Option InboundMessage) → Option MessageQueue → Round A
  on_event (ok none) q = again q
  on_event (ok (some m)) q = round m q
  on_event (err e) q = stop (err e)
  on_event panic q = stop panic
  on_event pending q = stop pending

  -- The loop, over the events that have arrived.
  unfoldable pub read_loop : List WsEvent → Option MessageQueue → Left A
  unfolding on_event
  read_loop [] q = (pending, [], q)
  read_loop (e ∷ es) q = elim (on_event (read_event e) q) [
    | again q' ↦ read_loop es q'
    | stop o ↦ (o, es, q)
  ]

  unfoldable pub run_loop : Action Wire RendezvousError A
  run_loop w =
      let (o, es, q) = read_loop w.connection.incoming w.queue in
      (o, record { connection = record (w.connection) { incoming = es }; queue = q })

-- `WsConnection::receive_ack`
unfoldable pub receive_ack : Action Wire RendezvousError (Unit {0})
unfolding run_loop
receive_ack = run_loop ack_round

-- `WsConnection::receive_reply`
unfoldable pub receive_reply : Action Wire RendezvousError RendezvousReply
unfolding run_loop
receive_reply = run_loop reply_round

-- `WsConnection::receive_message_some`
unfoldable pub receive_message_some : Action Wire RendezvousError InboundMessage
unfolding run_loop
receive_message_some = run_loop some_round

unfoldable pub on_connection :
    {A : Type 0} → Action Connection RendezvousError A → Action Wire RendezvousError A
on_connection f w = let (o, c) = f w.connection in (o, record w { connection = c })

-- `WsConnection::send_message`
unfoldable pub send_message : OutboundMessage → Action Wire RendezvousError (Unit {0})
unfolding on_connection
send_message m = do on_connection (send_text m); receive_ack
