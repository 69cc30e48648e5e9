-- ===== src/Core/Rendezvous/Fifo.antt =====
-- What the receiving loops of src/core/rendezvous.rs do with the peer's messages that come in
-- between: they are queued in the order in which they came, and none is lost or made up.
use mathlib.Core.List.{append-nil, append_assoc}
use magic_wormhole_rs.Common.{
  ◌≡◌, refl, List, [], ◌∷◌, ◌++◌, Option, none, some, Outcome, pending, ◌⊎◌, inl, inr, ap, ◌∙◌, sym,
  ◌≢◌,
}
use magic_wormhole_rs.Core.Messages.{EncryptedMessage, InboundMessage, message, ack, error, unknown}
use magic_wormhole_rs.Core.Rendezvous.Wire.{
  MessageQueue, WsEvent, RendezvousReply, text, bad_text, binary, ping_frame, pong_frame,
  close_frame, fault, end_of_stream, read_event, RendezvousError,
}
use magic_wormhole_rs.Core.Rendezvous.Receive.{
  Wire, Round, again, stop, enqueue, ack_round, reply_round, Left, on_event, read_loop, receive_ack,
  receive_reply,
}

abbrev pub as_peer : InboundMessage → Option EncryptedMessage
as_peer (message x) = some x
as_peer m = none

abbrev pub peer_of : WsEvent → Option EncryptedMessage
peer_of (text m) = as_peer m
peer_of e = none

abbrev pub with_message : Option EncryptedMessage → MessageQueue → MessageQueue
with_message none q = q
with_message (some x) q = x ∷ q

-- The peer's messages among the events, in their order.
abbrev pub peer_messages : List WsEvent → MessageQueue
peer_messages [] = []
peer_messages (e ∷ es) = with_message (peer_of e) (peer_messages es)

-- A queue with more messages behind it; there is none before the mailbox is open.
abbrev pub queue_all : Option MessageQueue → MessageQueue → Option MessageQueue
queue_all none xs = none
queue_all (some q) xs = some (q ++ xs)

-- A loop that ended in `r` on the events `es` and the queue `q` took a first part of the events,
-- put exactly the peer's messages of that part behind the queue, and, if it had to wait, took all.
pub record Reads {A : Type 0} (es : List WsEvent) (q : Option MessageQueue) (r : Left A)
    : Type 0 where
  pub taken : List WsEvent
  pub splits : es ≡ taken ++ r.1
  pub queued : r.2 ≡ queue_all q (peer_messages taken)
  pub waits : (r.0 ≢ pending) ⊎ (r.1 ≡ [])

-- A round that queues a message of the peer, and ends the loop at any other message.
pub record Queues {A : Type 0} (round : InboundMessage → Option MessageQueue → Round A)
    : Type 0 where
  pub peer : (x : EncryptedMessage) (q : Option MessageQueue) → round (message x) q ≡ enqueue q x
  pub other :
      (m : InboundMessage) (q : Option MessageQueue)
      → as_peer m ≡ none
      → (o : Outcome RendezvousError A) × (round m q ≡ stop o) × (o ≢ pending)

module _ {A : Type 0} (round : InboundMessage → Option MessageQueue → Round A)
    (h : Queues round) where
  abbrev Turn : WsEvent → Option MessageQueue → Type 0
  Turn e q =
      ((peer_of e ≡ none) × (on_event round (read_event e) q ≡ again q))
      ⊎ (((x : EncryptedMessage) × (peer_of e ≡ some x)
            × (on_event round (read_event e) q ≡ enqueue q x))
          ⊎ ((o : Outcome RendezvousError A) × (peer_of e ≡ none)
              × (on_event round (read_event e) q ≡ stop o)
              × (o ≢ pending)))

  text-Turn : (m : InboundMessage) (q : Option MessageQueue) → Turn (text m) q
  unfolding on_event read_event
  text-Turn unknown q = inl (refl, refl)
  text-Turn (error e orig) q = inr (inr (_, refl, refl, λ p. cc))
  text-Turn (message x) q = inr (inl (x, refl, h.peer x q))
  text-Turn m q = let (o, e, ne) = h.other m q refl in inr (inr (o, refl, e, ne))

  event-Turn : (e : WsEvent) (q : Option MessageQueue) → Turn e q
  unfolding on_event read_event
  event-Turn (text m) q = text-Turn m q
  event-Turn (bad_text e) q = inr (inr (_, refl, refl, λ p. cc))
  event-Turn binary q = inr (inr (_, refl, refl, λ p. cc))
  event-Turn ping_frame q = inl (refl, refl)
  event-Turn pong_frame q = inl (refl, refl)
  event-Turn close_frame q = inr (inr (_, refl, refl, λ p. cc))
  event-Turn (fault e) q = inr (inr (_, refl, refl, λ p. cc))
  event-Turn end_of_stream q = inr (inr (_, refl, refl, λ p. cc))

  queue_all-nil : (q : Option MessageQueue) → q ≡ queue_all q []
  queue_all-nil none = refl
  queue_all-nil (some q) = ap some (sym (append-nil q))

  peer_turn :
      (e : WsEvent) (es : List WsEvent) (q : Option MessageQueue) (x : EncryptedMessage)
      → peer_of e ≡ some x
      → on_event round (read_event e) q ≡ enqueue q x
      → ((p : Option MessageQueue) → Reads es p (read_loop round es p))
      → Reads (e ∷ es) q (read_loop round (e ∷ es) q)
  unfolding read_loop enqueue
  peer_turn e es none x px t ih =
      rw (t, read_loop)
        (record { taken = e ∷ []; splits = refl; queued = refl; waits = inl (λ p. cc) })
  peer_turn e es (some q) x px t ih =
      let r = ih (some (q ++ (x ∷ []))) in
      rw (t, read_loop)
        (record {
          taken = e ∷ r.taken;
          splits = ap (◌∷◌ e) r.splits;
          queued = rw px (r.queued ∙ ap some (append_assoc q (x ∷ []) (peer_messages r.taken)));
          waits = r.waits;
        })

  pub read_loop-Reads :
      (es : List WsEvent) (q : Option MessageQueue) → Reads es q (read_loop round es q)
  unfolding read_loop
  read_loop-Reads [] q = record {
    taken = [];
    splits = refl;
    queued = queue_all-nil q;
    waits = inr refl;
  }
  read_loop-Reads (e ∷ es) q = elim (event-Turn e q) [
    | inl (np, t) ↦
        let ih = read_loop-Reads es q in
        rw (t, read_loop)
          (record {
            taken = e ∷ ih.taken;
            splits = ap (◌∷◌ e) ih.splits;
            queued = rw np ih.queued;
            waits = ih.waits;
          })
    | inr (inl (x, px, t)) ↦ peer_turn e es q x px t (read_loop-Reads es)
    | inr (inr (o, np, t, ne)) ↦
        rw (t, read_loop)
          (record {
            taken = e ∷ [];
            splits = refl;
            queued = rw np (queue_all-nil q);
            waits = inl ne;
          })
  ]

unfoldable pub left_of : {A : Type 0} → Outcome RendezvousError A × Wire → Left A
left_of (o, w) = (o, w.connection.incoming, w.queue)

ack_round-Queues : Queues ack_round
unfolding ack_round
ack_round-Queues = record { peer = λ x q. refl; other = other_ack }
  where
    other_ack :
        (m : InboundMessage) (q : Option MessageQueue)
        → as_peer m ≡ none
        → (o : Outcome RendezvousError (Unit {0})) × (ack_round m q ≡ stop o) × (o ≢ pending)
    other_ack ack q p = (_, refl, λ e. cc)
    other_ack (message x) q p = cc
    other_ack m q p = (_, refl, λ e. cc)

reply_round-Queues : Queues reply_round
unfolding reply_round
reply_round-Queues = record { peer = λ x q. refl; other = other_reply }
  where
    other_reply :
        (m : InboundMessage) (q : Option MessageQueue)
        → as_peer m ≡ none
        → (o : Outcome RendezvousError RendezvousReply) × (reply_round m q ≡ stop o) × (o ≢ pending)
    other_reply ack q p = (_, refl, λ e. cc)
    other_reply (message x) q p = cc
    other_reply m q p = (_, refl, λ e. cc)

-- While it waits for an acknowledgement or for a reply, the client takes a first part of the events
-- and puts exactly the peer's messages in that part behind its queue, in their order, whatever the
-- outcome; it waits for more only when it has taken every event.
pub receive_fifo :
    (w : Wire)
    → Reads w.connection.incoming w.queue (left_of (receive_ack w))
      × Reads w.connection.incoming w.queue (left_of (receive_reply w))
unfolding receive_ack receive_reply left_of
receive_fifo w = (
  read_loop-Reads ack_round ack_round-Queues w.connection.incoming w.queue,
  read_loop-Reads reply_round reply_round-Queues w.connection.incoming w.queue,
)
