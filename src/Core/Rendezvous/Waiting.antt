-- ===== src/Core/Rendezvous/Waiting.antt =====
-- The loop of `next_peer_message_some` in src/core/rendezvous.rs ends by its own tests: it waits
-- only when the queue and the socket hold nothing more.
use magic_wormhole_rs.Common.{
  ℕ, zero, suc, ◌+◌, ◌≤◌, ◌<◌, ◌≡◌, refl, List, [], ◌∷◌, Option, none, some, arith, Outcome, ok,
  err, panic, pending, ◌≢◌, length,
}
use magic_wormhole_rs.Core.Messages.{EncryptedMessage, InboundMessage, message, error, unknown}
use magic_wormhole_rs.Core.Rendezvous.Wire.{
  RendezvousError, MessageQueue, WsEvent, text, bad_text, binary, ping_frame, pong_frame,
  close_frame, fault, end_of_stream, read_event, read_first,
}
use magic_wormhole_rs.Core.Rendezvous.Wire
use magic_wormhole_rs.Core.Rendezvous.Machine.{MailboxMachine}
use magic_wormhole_rs.Core.Rendezvous.Machine
use magic_wormhole_rs.Core.Rendezvous.Server.{
  RendezvousServer, deliver, next_fresh, next_queued, next_in, next_peer_message, queued_in, rounds,
  next_on, next_some_loop, next_peer_message_some,
}

-- One call from `s`: it takes something if it passes nothing on, and it waits only when nothing is
-- left.
pub record Falls (s : RendezvousServer)
    (r : Outcome RendezvousError (Option EncryptedMessage) × RendezvousServer) : Type 0 where
  pub falls : r.0 ≡ ok none → rounds r.1 < rounds s
  pub drained : r.0 ≡ pending → rounds r.1 ≡ 1

deliver-Falls :
    (m : MailboxMachine) (x : EncryptedMessage) (s t : RendezvousServer)
    → length m.queue + length t.connection.incoming
      < queued_in s.state + length s.connection.incoming
    → Falls s (deliver m x t)
unfolding deliver Machine.receive_message
deliver-Falls m x s t h = ground arith

read_event-ne-pending : (e : WsEvent) → read_event e ≢ pending
unfolding read_event
read_event-ne-pending (text unknown) h = cc
read_event-ne-pending (text (error e orig)) h = cc
read_event-ne-pending (text m) h = cc
read_event-ne-pending (bad_text e) h = cc
read_event-ne-pending e h = cc

next_fresh-Falls :
    (m : MailboxMachine) (o : Outcome RendezvousError (Option InboundMessage))
    (s t : RendezvousServer)
    → length m.queue ≡ 0
    → o ≢ pending
    → queued_in t.state ≡ queued_in s.state
    → length t.connection.incoming < length s.connection.incoming
    → Falls s (next_fresh m o t)
unfolding next_fresh
next_fresh-Falls m (ok none) s t z n q h = ground arith
next_fresh-Falls m (ok (some (message x))) s t z n q h = deliver-Falls m x s t (omega arith)
next_fresh-Falls m (ok (some other)) s t z n q h = record { falls = λ e. cc; drained = λ e. cc }
next_fresh-Falls m (err x) s t z n q h = record { falls = λ e. cc; drained = λ e. cc }
next_fresh-Falls m panic s t z n q h = record { falls = λ e. cc; drained = λ e. cc }
next_fresh-Falls m pending s t z n q h = absurd (n refl)

next_read-Falls :
    (m : MailboxMachine) (es : List WsEvent) (s : RendezvousServer)
    → s.connection.incoming ≡ es
    → queued_in s.state ≡ 0
    → length m.queue ≡ 0
    → let (o, c) = read_first es s.connection in
      Falls s (next_fresh m o (record s { connection = c }))
unfolding read_first
next_read-Falls m [] s e z q = record {
  falls = λ p. unfold next_fresh in cc;
  drained = λ p. unfold next_fresh in ground arith;
}
next_read-Falls m (e ∷ es) s i z q =
    next_fresh-Falls m (read_event e) s
      (record s { connection = record (s.connection) { incoming = es } }) q
      (read_event-ne-pending e) refl (ground arith)

next_queued-Falls :
    (m : MailboxMachine) (q : MessageQueue) (s : RendezvousServer)
    → s.state ≡ some m
    → m.queue ≡ q
    → Falls s (next_queued m q s)
unfolding next_queued Wire.receive_message
next_queued-Falls m [] s e q =
    next_read-Falls m s.connection.incoming s refl (ground arith) (ground arith)
next_queued-Falls m (x ∷ q) s e h = deliver-Falls (record m { queue = q }) x s s (ground arith)

next_in-Falls :
    (o : Option MailboxMachine) (s : RendezvousServer) → s.state ≡ o → Falls s (next_in o s)
unfolding next_in
next_in-Falls none s e = record { falls = λ p. cc; drained = λ p. cc }
next_in-Falls (some m) s e = next_queued-Falls m m.queue s e refl

next_peer_message-Falls : (s : RendezvousServer) → Falls s (next_peer_message s)
unfolding next_peer_message
next_peer_message-Falls s = next_in-Falls s.state s refl

next_on-drained :
    (fuel : ℕ) (s : RendezvousServer)
    → ((t : RendezvousServer)
        → rounds t ≤ fuel
        → (next_some_loop fuel t).0 ≡ pending
        → rounds (next_some_loop fuel t).1 ≡ 1)
    → rounds s ≤ suc fuel
    → (r : Outcome RendezvousError (Option EncryptedMessage) × RendezvousServer) → Falls s r
    → (next_on (next_some_loop fuel) r).0 ≡ pending
    → rounds (next_on (next_some_loop fuel) r).1 ≡ 1
next_on-drained fuel s ih h (ok none, t) f p = ih t (omega (arith, f.falls refl)) p
next_on-drained fuel s ih h (ok (some m), t) f p = cc
next_on-drained fuel s ih h (err e, t) f p = cc
next_on-drained fuel s ih h (panic, t) f p = cc
next_on-drained fuel s ih h (pending, t) f p = f.drained refl

length-zero : (es : List WsEvent) → length es ≡ 0 → es ≡ []
length-zero [] h = refl
length-zero (e ∷ es) h = absurd (omega arith)

next_some_loop-drained :
    (fuel : ℕ) (s : RendezvousServer)
    → rounds s ≤ fuel
    → (next_some_loop fuel s).0 ≡ pending
    → rounds (next_some_loop fuel s).1 ≡ 1
unfolding next_some_loop
next_some_loop-drained zero s h p = absurd (omega arith)
next_some_loop-drained (suc fuel) s h p =
    next_on-drained fuel s (next_some_loop-drained fuel) h (next_peer_message s)
      (next_peer_message-Falls s) p

-- `next_peer_message_some` waits only when it has taken every queued message and every event that
-- has arrived.
pub next_peer_message_some-drained :
    (s : RendezvousServer)
    → (next_peer_message_some s).0 ≡ pending
    → (queued_in (next_peer_message_some s).1.state ≡ 0)
      × ((next_peer_message_some s).1.connection.incoming ≡ [])
unfolding next_peer_message_some
next_peer_message_some-drained s p =
    let e = next_some_loop-drained (rounds s) s (omega arith) p in
    (omega arith, length-zero _ (omega arith))
