-- ===== src/Core/Rendezvous/Server.antt =====
-- `RendezvousServer` of src/core/rendezvous.rs: sending, and the messages of the peer.
use magic_wormhole_rs.Common.{
  ℕ, zero, suc, ◌+◌, [], ◌∷◌, Option, none, some, Bool, true, false, Bytes, Outcome, ok, err, panic,
  pending, Action, length,
}
use magic_wormhole_rs.Core.Names.{Phase, MySide}
use magic_wormhole_rs.Core.Messages.{
  EncryptedMessage, OutboundMessage, InboundMessage, message, add,
}
use magic_wormhole_rs.Core.Rendezvous.Wire.{
  Connection, RendezvousError, RendezvousReply, MessageQueue, protocol, expected_peer_message,
}
use magic_wormhole_rs.Core.Rendezvous.Wire
use magic_wormhole_rs.Core.Rendezvous.Receive.{Wire}
use magic_wormhole_rs.Core.Rendezvous.Receive
use magic_wormhole_rs.Core.Rendezvous.Machine.{MailboxMachine}
use magic_wormhole_rs.Core.Rendezvous.Machine

pub record RendezvousServer : Type 0 where
  pub connection : Connection
  pub state : Option MailboxMachine
  pub side : MySide

-- `self.state.as_mut().map(|state| &mut state.queue)`, and what was written through it.
unfoldable pub queue_of : Option MailboxMachine → Option MessageQueue
queue_of none = none
queue_of (some m) = some m.queue

unfoldable pub put_queue : Option MailboxMachine → Option MessageQueue → Option MailboxMachine
put_queue none q = none
put_queue (some m) none = some m
put_queue (some m) (some q) = some (record m { queue = q })

-- A call on the socket that is given the queue of the mailbox.
unfoldable pub on_wire :
    {A : Type 0} → Action Wire RendezvousError A → Action RendezvousServer RendezvousError A
unfolding queue_of put_queue
on_wire f s =
    let (o, w) = f (record { connection = s.connection; queue = queue_of s.state }) in
    (o, record s { connection = w.connection; state = put_queue s.state w.queue })

-- `RendezvousServer::send_message`
unfoldable pub send_message : OutboundMessage → Action RendezvousServer RendezvousError (Unit {0})
unfolding on_wire
send_message m = on_wire (Receive.send_message m)

-- `RendezvousServer::receive_reply`
unfoldable pub receive_reply : Action RendezvousServer RendezvousError RendezvousReply
unfolding on_wire
receive_reply = on_wire Receive.receive_reply

-- `RendezvousServer::send_peer_message`
unfoldable pub send_peer_message :
    Phase → Bytes → Action RendezvousServer RendezvousError (Unit {0})
unfolding send_message
send_peer_message phase body = send_message (add phase body)

passed_on : EncryptedMessage → Bool → Option EncryptedMessage
passed_on x true = some x
passed_on x false = none

-- What `next_peer_message` answers to a message from the mailbox.
unfoldable pub deliver :
    MailboxMachine
    → EncryptedMessage
    → Action RendezvousServer RendezvousError (Option EncryptedMessage)
unfolding passed_on
deliver m x s =
    let (fresh, m') = Machine.receive_message m x s.side in
    (ok (passed_on x fresh), record s { state = some m' })

unfoldable pub next_fresh :
    MailboxMachine
    → Outcome RendezvousError (Option InboundMessage)
    → Action RendezvousServer RendezvousError (Option EncryptedMessage)
unfolding deliver
next_fresh m (ok (some (message x))) s = deliver m x s
next_fresh m (ok (some other)) s = (err (protocol (expected_peer_message other)), s)
next_fresh m (ok none) s = (ok none, s)
next_fresh m (err e) s = (err e, s)
next_fresh m panic s = (panic, s)
next_fresh m pending s = (pending, s)

unfoldable pub next_queued :
    MailboxMachine
    → MessageQueue
    → Action RendezvousServer RendezvousError (Option EncryptedMessage)
unfolding deliver next_fresh
next_queued m (x ∷ q) s = deliver (record m { queue = q }) x s
next_queued m [] s =
    let (o, c) = Wire.receive_message s.connection in next_fresh m o (record s { connection = c })

unfoldable pub next_in :
    Option MailboxMachine → Action RendezvousServer RendezvousError (Option EncryptedMessage)
unfolding next_queued
next_in none s = (panic, s)
next_in (some m) s = next_queued m m.queue s

-- `RendezvousServer::next_peer_message`
unfoldable pub next_peer_message : Action RendezvousServer RendezvousError (Option EncryptedMessage)
unfolding next_in
next_peer_message s = next_in s.state s

abbrev pub queued_in : Option MailboxMachine → ℕ
queued_in none = 0
queued_in (some m) = length m.queue

-- The rounds that `next_peer_message` can make before it must wait: each takes a queued message or
-- an event, and the last finds neither.
abbrev pub rounds : RendezvousServer → ℕ
rounds s = suc (queued_in s.state + length s.connection.incoming)

-- One round of a loop on `next_peer_message`, from its outcome and what the rest of the loop does.
abbrev pub next_on :
    Action RendezvousServer RendezvousError EncryptedMessage
    → Outcome RendezvousError (Option EncryptedMessage) × RendezvousServer
    → Outcome RendezvousError EncryptedMessage × RendezvousServer
next_on rest (ok none, t) = rest t
next_on rest (ok (some m), t) = (ok m, t)
next_on rest (err e, t) = (err e, t)
next_on rest (panic, t) = (panic, t)
next_on rest (pending, t) = (pending, t)

-- The loop of `next_peer_message_some`.
unfoldable pub next_some_loop : ℕ → Action RendezvousServer RendezvousError EncryptedMessage
next_some_loop zero s = (pending, s)
next_some_loop (suc fuel) s = next_on (next_some_loop fuel) (next_peer_message s)

-- `RendezvousServer::next_peer_message_some`
unfoldable pub next_peer_message_some : Action RendezvousServer RendezvousError EncryptedMessage
unfolding next_some_loop
next_peer_message_some s = next_some_loop (rounds s) s
