-- ===== src/Core/Rendezvous/Todo.antt =====
-- What a `RendezvousServer` of src/core/rendezvous.rs has still to pass on: its specification as a
-- plain list, which no request to the server changes.
use mathlib.Core.List.{append_assoc}
use magic_wormhole_rs.Common.{
  ◌≡◌, refl, List, [], ◌∷◌, ◌++◌, Option, none, some, Outcome, ok, err, panic, pending, Action,
  after, ap, ◌∙◌, sym, if◌then◌else◌, bytes_eq, contains,
}
use magic_wormhole_rs.Core.Names.{Phase, MySide}
use magic_wormhole_rs.Core.Messages.{EncryptedMessage, OutboundMessage}
use magic_wormhole_rs.Core.Rendezvous.Wire.{
  Connection, WsError, WsEvent, MessageQueue, RendezvousError, send_text, send_frame,
}
use magic_wormhole_rs.Core.Rendezvous.Receive.{Wire, on_connection, receive_ack}
use magic_wormhole_rs.Core.Rendezvous.Receive
use magic_wormhole_rs.Core.Rendezvous.Machine.{MailboxMachine}
use magic_wormhole_rs.Core.Rendezvous.Server.{
  RendezvousServer, queue_of, put_queue, on_wire, send_message, receive_reply,
}
use magic_wormhole_rs.Core.Rendezvous.Fifo.{
  peer_of, with_message, peer_messages, queue_all, Reads, left_of, receive_fifo,
}

-- The specification: of the messages in the mailbox, those from the other side, each phase once.
unfoldable pub fresh_messages : MySide → List Phase → List EncryptedMessage → List EncryptedMessage
fresh_messages side seen [] = []
fresh_messages side seen (x ∷ xs) =
    let skipped = fresh_messages side seen xs in
    let taken = x ∷ fresh_messages side (x.phase ∷ seen) xs in
    if bytes_eq x.side side then skipped else if contains x.phase seen then skipped else taken

abbrev pub todo_at : MySide → List WsEvent → Option MailboxMachine → List EncryptedMessage
todo_at side es none = []
todo_at side es (some m) = fresh_messages side m.processed (m.queue ++ peer_messages es)

-- What a server has still to pass on, of what was queued and what has arrived.
abbrev pub todo : RendezvousServer → List EncryptedMessage
todo s = todo_at s.side s.connection.incoming s.state

with_message-append :
    (o : Option EncryptedMessage) (xs ys zs : MessageQueue)
    → xs ≡ ys ++ zs
    → with_message o xs ≡ with_message o ys ++ zs
with_message-append none xs ys zs h = h
with_message-append (some x) xs ys zs h = ap (◌∷◌ x) h

peer_messages-append :
    (a b : List WsEvent) → peer_messages (a ++ b) ≡ peer_messages a ++ peer_messages b
peer_messages-append [] b = refl
peer_messages-append (e ∷ a) b =
    with_message-append (peer_of e) _ _ (peer_messages b) (peer_messages-append a b)

-- The messages that a call on the socket may hand over: the queue, and what the events bring.
abbrev backlog : Wire → Option MessageQueue
backlog w = queue_all w.queue (peer_messages w.connection.incoming)

queue_all-append :
    (q : Option MessageQueue) (a b : MessageQueue)
    → queue_all (queue_all q a) b ≡ queue_all q (a ++ b)
queue_all-append none a b = refl
queue_all-append (some q) a b = ap some (append_assoc q a b)

Reads-backlog :
    {A : Type 0} (es rest : List WsEvent) (q q' : Option MessageQueue)
    (o : Outcome RendezvousError A)
    → Reads es q (o, rest, q')
    → queue_all q' (peer_messages rest) ≡ queue_all q (peer_messages es)
Reads-backlog es rest q q' o r =
    ap (λ x. queue_all x (peer_messages rest)) r.queued
    ∙ queue_all-append q (peer_messages r.taken) (peer_messages rest)
    ∙ ap (queue_all q) (sym (peer_messages-append r.taken rest) ∙ ap peer_messages (sym r.splits))

send_frame-incoming :
    (fs : List (Option WsError)) (m : OutboundMessage) (c : Connection)
    → (send_frame fs m c).1.incoming ≡ c.incoming
unfolding send_frame
send_frame-incoming [] m c = refl
send_frame-incoming (none ∷ fs) m c = refl
send_frame-incoming (some e ∷ fs) m c = refl

-- Calls that leave a view of the state alone, whatever their outcome.
pub after-keeps :
    {S V E A B : Type 0} (view : S → V) (v : V) (r : Outcome E A × S) (f : A → Action S E B)
    → view r.1 ≡ v
    → ((a : A) (s : S) → view (f a s).1 ≡ view s)
    → view (after r f).1 ≡ v
after-keeps view v (ok a, s) f h k = k a s ∙ h
after-keeps view v (err e, s) f h k = h
after-keeps view v (panic, s) f h k = h
after-keeps view v (pending, s) f h k = h

receive_ack-backlog : (w : Wire) → backlog (receive_ack w).1 ≡ backlog w
unfolding left_of
receive_ack-backlog w = Reads-backlog w.connection.incoming _ w.queue _ _ (receive_fifo w).0

receive_reply-backlog : (w : Wire) → backlog (Receive.receive_reply w).1 ≡ backlog w
unfolding left_of
receive_reply-backlog w = Reads-backlog w.connection.incoming _ w.queue _ _ (receive_fifo w).1

send_message-backlog :
    (m : OutboundMessage) (w : Wire) → backlog (Receive.send_message m w).1 ≡ backlog w
unfolding Receive.send_message on_connection send_text
send_message-backlog m w =
    after-keeps backlog (backlog w) (on_connection (send_text m) w) (λ _. receive_ack)
      (ap (λ es. queue_all w.queue (peer_messages es))
        (send_frame-incoming w.connection.send_faults m w.connection))
      (λ _ v. receive_ack-backlog v)

put_queue-todo :
    (side : MySide) (o : Option MailboxMachine) (q : Option MessageQueue) (es es' : List WsEvent)
    → queue_all q (peer_messages es') ≡ queue_all (queue_of o) (peer_messages es)
    → todo_at side es' (put_queue o q) ≡ todo_at side es o
unfolding queue_of put_queue
put_queue-todo side none q es es' h = refl
put_queue-todo side (some m) none es es' h = cc
put_queue-todo side (some m) (some q) es es' h =
    let same : q ++ peer_messages es' ≡ m.queue ++ peer_messages es = cc h in
    ap (fresh_messages side m.processed) same

on_wire-todo :
    {A : Type 0} (f : Action Wire RendezvousError A)
    → ((w : Wire) → backlog (f w).1 ≡ backlog w)
    → (s : RendezvousServer) → todo (on_wire f s).1 ≡ todo s
unfolding on_wire
on_wire-todo f keeps s =
    let w : Wire = record { connection = s.connection; queue = queue_of s.state } in
    put_queue-todo s.side s.state (f w).1.queue s.connection.incoming (f w).1.connection.incoming
      (keeps w)

pub send_message-todo :
    (m : OutboundMessage) (s : RendezvousServer) → todo (send_message m s).1 ≡ todo s
unfolding send_message
send_message-todo m = on_wire-todo (Receive.send_message m) (send_message-backlog m)

pub receive_reply-todo : (s : RendezvousServer) → todo (receive_reply s).1 ≡ todo s
unfolding receive_reply
receive_reply-todo = on_wire-todo Receive.receive_reply receive_reply-backlog
