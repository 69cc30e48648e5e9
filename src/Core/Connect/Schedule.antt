-- ===== src/Core/Connect/Schedule.antt =====
-- What the server and the peer may send, and when, while a client of src/core.rs connects.
use mathlib.Core.List.{append-nil, append_assoc}
use magic_wormhole_rs.Common.{
  ℕ, suc, ◌+◌, ◌≡◌, refl, sym, ◌∙◌, ◌⊎◌, inl, inr, List, [], ◌∷◌, ◌++◌, Option, none, some, true,
  false, Bytes, ok, bytes_eq, contains, length, length-append, All, Bool-cases, arith,
}
use magic_wormhole_rs.Core.Names.{Phase, MySide, Nameplate, Mailbox}
use magic_wormhole_rs.Core.Messages.{
  EncryptedMessage, OutboundMessage, InboundMessage, ack, released, message, add, release,
}
use magic_wormhole_rs.Core.Rendezvous.Wire.{MessageQueue, WsEvent, text, send_text, read_event}
use magic_wormhole_rs.Core.Rendezvous.Wire
use magic_wormhole_rs.Core.Rendezvous.Receive
use magic_wormhole_rs.Core.Rendezvous.Machine
use magic_wormhole_rs.Core.Rendezvous.Machine.{MailboxMachine}
use magic_wormhole_rs.Core.Rendezvous.Server.{
  RendezvousServer, send_message, receive_reply, send_peer_message, next_peer_message,
  next_some_loop, next_peer_message_some,
}
use magic_wormhole_rs.Core.Rendezvous.Setup.{release_nameplate, needs_nameplate_release}
use magic_wormhole_rs.Core.Connect.{Env, on_rendezvous, release_if_needed}

-- A server with an open mailbox and a socket that takes what is sent.
abbrev pub seat :
    MySide
    → Mailbox
    → Option Nameplate
    → List Phase
    → MessageQueue
    → List OutboundMessage
    → List WsEvent
    → RendezvousServer
seat side mailbox nameplate seen queue said events = record {
  connection = record { incoming = events; sent = said; send_faults = []; close_fault = none };
  state =
      some (record { nameplate = nameplate; mailbox = mailbox; queue = queue; processed = seen });
  side = side;
}

-- Messages of the mailbox, in front of other events.
abbrev pub posts : List EncryptedMessage → List WsEvent → List WsEvent
posts [] es = es
posts (m ∷ ms) es = text (message m) ∷ posts ms es

-- The events begin with an answer of the server, but for messages of the mailbox, which go into the
-- queue.
abbrev pub Replied :
    InboundMessage → MessageQueue → List WsEvent → MessageQueue → List WsEvent → Type 0
Replied reply q events q' events' =
    (ms : List EncryptedMessage) × (events ≡ posts ms (text reply ∷ events')) × (q' ≡ q ++ ms)

-- A message that is not passed on: an echo of ours, or one with a phase that was passed on before.
abbrev pub Stale : MySide → List Phase → EncryptedMessage → Type 0
Stale side seen m = (bytes_eq m.side side ≡ true) ⊎ (contains m.phase seen ≡ true)

-- The first message that is not stale, in the queue or else behind it among the events.
abbrev pub Passed :
    MySide
    → List Phase
    → EncryptedMessage
    → MessageQueue
    → List WsEvent
    → MessageQueue
    → List WsEvent
    → Type 0
Passed side seen m q events q' events' =
    (bytes_eq m.side side ≡ false)
    × (contains m.phase seen ≡ false)
    × (old : List EncryptedMessage) × All (Stale side seen) old
    × (((q ≡ old ++ (m ∷ q')) × (events ≡ events'))
        ⊎ (All (Stale side seen) q × (events ≡ posts old (text (message m) ∷ events')) × (q' ≡ [])))

receive_message-Stale :
    (m : MailboxMachine) (x : EncryptedMessage) (side : MySide)
    → Stale side m.processed x
    → Machine.receive_message m x side ≡ (false, m)
unfolding Machine.receive_message
receive_message-Stale m x side (inl own) = rw own refl
receive_message-Stale m x side (inr again) = elim (Bool-cases (bytes_eq x.side side)) [
  | inl own ↦ rw own refl
  | inr other ↦ rw (other, again) refl
]

length-posts :
    (ms : List EncryptedMessage) (es : List WsEvent) → length (posts ms es) ≡ length ms + length es
length-posts [] es = omega arith
length-posts (m ∷ ms) es = omega (arith, length-posts ms es)

ack_messages :
    (ms : List EncryptedMessage) (q : MessageQueue) (es : List WsEvent)
    → Receive.read_loop Receive.ack_round (posts ms (text ack ∷ es)) (some q)
      ≡ (ok tt, es, some (q ++ ms))
unfolding Receive.read_loop Receive.ack_round Receive.enqueue Receive.on_event read_event
ack_messages [] q es = λ j. (ok tt, es, some (sym (append-nil q) j))
ack_messages (m ∷ ms) q es =
    ack_messages ms (q ++ (m ∷ [])) es ∙ (λ j. (ok tt, es, some (append_assoc q (m ∷ []) ms j)))

release_messages :
    (ms : List EncryptedMessage) (q : MessageQueue) (es : List WsEvent)
    → Receive.read_loop Receive.reply_round (posts ms (text released ∷ es)) (some q)
      ≡ (ok Wire.released_reply, es, some (q ++ ms))
unfolding Receive.read_loop Receive.reply_round Receive.enqueue Receive.on_event read_event
release_messages [] q es = λ j. (ok Wire.released_reply, es, some (sym (append-nil q) j))
release_messages (m ∷ ms) q es =
    release_messages ms (q ++ (m ∷ [])) es
    ∙ (λ j. (ok Wire.released_reply, es, some (append_assoc q (m ∷ []) ms j)))

module _ (side : MySide) (mailbox : Mailbox) (o : Option Nameplate) (seen : List Phase)
    (said : List OutboundMessage) where
  -- A message is sent and acknowledged.
  pub says :
      (q q' : MessageQueue) (events events' : List WsEvent) (p b : Bytes)
      → Replied ack q events q' events'
      → on_rendezvous (send_peer_message p b) (seat side mailbox o seen q said events)
        ≡ (ok tt, seat side mailbox o seen q' (said ++ (add p b ∷ [])) events')
  unfolding on_rendezvous send_peer_message send_message Receive.send_message send_text
      Receive.receive_ack
  says q q' events events' p b (ms, e, f) = rw (e, f, ack_messages ms q events') refl

  skips :
      (old q : MessageQueue) (events : List WsEvent) (fuel : ℕ)
      → All (Stale side seen) old
      → next_some_loop (length old + fuel) (seat side mailbox o seen (old ++ q) said events)
        ≡ next_some_loop fuel (seat side mailbox o seen q said events)
  unfolding next_some_loop next_peer_message
  skips [] q events fuel a = let e : 0 + fuel ≡ fuel = omega arith in rw e refl
  skips (x ∷ old) q events fuel (s, a) =
      let e : suc (length old) + fuel ≡ suc (length old + fuel) = omega arith in
      let same =
        receive_message-Stale
          (record { nameplate = o; mailbox = mailbox; queue = old ++ q; processed = seen }) x side
          s in
      rw (e, next_some_loop, same) (skips old q events fuel a)

  waits :
      (old : List EncryptedMessage) (events : List WsEvent) (fuel : ℕ)
      → All (Stale side seen) old
      → next_some_loop (length old + fuel) (seat side mailbox o seen [] said (posts old events))
        ≡ next_some_loop fuel (seat side mailbox o seen [] said events)
  unfolding next_some_loop next_peer_message Wire.receive_message
  waits [] events fuel a = let e : 0 + fuel ≡ fuel = omega arith in rw e refl
  waits (x ∷ old) events fuel (s, a) =
      let e : suc (length old) + fuel ≡ suc (length old + fuel) = omega arith in
      let same =
        receive_message-Stale
          (record { nameplate = o; mailbox = mailbox; queue = []; processed = seen }) x side s in
      rw (e, next_some_loop, same) (waits old events fuel a)

  hears_queued :
      (m : EncryptedMessage) (q : MessageQueue) (events : List WsEvent) (fuel : ℕ)
      → bytes_eq m.side side ≡ false
      → contains m.phase seen ≡ false
      → next_some_loop (suc fuel) (seat side mailbox o seen (m ∷ q) said events)
        ≡ (ok m, seat side mailbox o (m.phase ∷ seen) q said events)
  unfolding next_some_loop next_peer_message Machine.receive_message
  hears_queued m q events fuel other fresh = rw (other, fresh) refl

  hears_arriving :
      (m : EncryptedMessage) (events : List WsEvent) (fuel : ℕ)
      → bytes_eq m.side side ≡ false
      → contains m.phase seen ≡ false
      → next_some_loop (suc fuel) (seat side mailbox o seen [] said (text (message m) ∷ events))
        ≡ (ok m, seat side mailbox o (m.phase ∷ seen) [] said events)
  unfolding next_some_loop next_peer_message Machine.receive_message Wire.receive_message read_event
  hears_arriving m events fuel other fresh = rw (other, fresh) refl

  passes_queued :
      (m : EncryptedMessage) (old q : MessageQueue) (events : List WsEvent)
      → bytes_eq m.side side ≡ false
      → contains m.phase seen ≡ false
      → All (Stale side seen) old
      → next_peer_message_some (seat side mailbox o seen (old ++ (m ∷ q)) said events)
        ≡ (ok m, seat side mailbox o (m.phase ∷ seen) q said events)
  unfolding next_peer_message_some
  passes_queued m old q events other fresh a =
      let fuel : ℕ = length q + length events + 1 in
      let e : suc (length (old ++ (m ∷ q)) + length events) ≡ length old + suc fuel =
        omega (arith, length-append old (m ∷ q)) in
      (λ j. next_some_loop (e j) (seat side mailbox o seen (old ++ (m ∷ q)) said events))
      ∙ skips old (m ∷ q) events (suc fuel) a
      ∙ hears_queued m q events fuel other fresh

  passes_arriving :
      (m : EncryptedMessage) (q old : MessageQueue) (events : List WsEvent)
      → bytes_eq m.side side ≡ false
      → contains m.phase seen ≡ false
      → All (Stale side seen) q
      → All (Stale side seen) old
      → next_peer_message_some
          (seat side mailbox o seen (q ++ []) said (posts old (text (message m) ∷ events)))
        ≡ (ok m, seat side mailbox o (m.phase ∷ seen) [] said events)
  unfolding next_peer_message_some
  passes_arriving m q old events other fresh a b =
      let fuel : ℕ = length events + 1 in
      let later : List WsEvent = posts old (text (message m) ∷ events) in
      let e : suc (length (q ++ []) + length later) ≡ length q + (length old + suc fuel) =
        omega (arith, length-append q [], length-posts old (text (message m) ∷ events)) in
      (λ j. next_some_loop (e j) (seat side mailbox o seen (q ++ []) said later))
      ∙ skips q [] later (length old + suc fuel) a
      ∙ waits old (text (message m) ∷ events) (suc fuel) b
      ∙ hears_arriving m events fuel other fresh

  -- The message that the peer is heard with.
  pub hears :
      (m : EncryptedMessage) (q q' : MessageQueue) (events events' : List WsEvent)
      → Passed side seen m q events q' events'
      → on_rendezvous next_peer_message_some (seat side mailbox o seen q said events)
        ≡ (ok m, seat side mailbox o (m.phase ∷ seen) q' said events')
  unfolding on_rendezvous
  hears m q q' events events' (other, fresh, old, a, inl (e, f)) =
      rw (e, f, passes_queued m old q' events' other fresh a) refl
  hears m q q' events events' (other, fresh, old, a, inr (b, f, g)) =
      let e : q ≡ q ++ [] = sym (append-nil q) in
      rw (f, g)
        ((λ j.
            on_rendezvous next_peer_message_some
              (seat side mailbox o seen (e j) said (posts old (text (message m) ∷ events'))))
          ∙ (rw (passes_arriving m q old events' other fresh b a) refl))

-- The nameplate is released.
pub releases :
    (side : MySide) (mailbox : Mailbox) (env : Env) (n : Nameplate) (seen : List Phase)
    (said : List OutboundMessage) (q q1 q2 : MessageQueue) (events events1 events2 : List WsEvent)
    → Replied ack q events q1 events1
    → Replied released q1 events1 q2 events2
    → release_if_needed env (seat side mailbox (some n) seen q said events)
      ≡ (ok tt, seat side mailbox none seen q2 (said ++ (release n ∷ [])) events2)
unfolding release_if_needed on_rendezvous needs_nameplate_release release_nameplate send_message
    Receive.send_message send_text Receive.receive_ack receive_reply Receive.receive_reply
releases side mailbox env n seen said q q1 q2 events events1 events2 (ms, e, f) (ns, g, h) =
    rw (e, ack_messages ms q events1, h, g, f, release_messages ns (q ++ ms) events2) refl
