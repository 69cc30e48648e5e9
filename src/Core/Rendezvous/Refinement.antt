-- ===== src/Core/Rendezvous/Refinement.antt =====
-- The messages of the peer as `RendezvousServer` of src/core/rendezvous.rs passes them on, against the
-- list of what there is to pass on.
use mathlib.Core.List.{append_assoc}
use magic_wormhole_rs.Common.{
  ◌≡◌, refl, List, [], ◌∷◌, ◌++◌, arith, Option, none, some, Outcome, ok, inl, inr, ap, ◌∙◌, sym,
  bytes_eq, contains, Bool-cases, Bytes,
}
use magic_wormhole_rs.Core.Names.{Phase, Nameplate}
use magic_wormhole_rs.Core.Messages.{EncryptedMessage, message, add, release, error, unknown}
use magic_wormhole_rs.Core.Rendezvous.Wire.{
  Connection, WsError, WsEvent, MessageQueue, RendezvousError, RendezvousReply, released_reply,
  text, read_event, read_first, send_text, send_frame,
}
use magic_wormhole_rs.Core.Rendezvous.Wire
use magic_wormhole_rs.Core.Rendezvous.Machine.{MailboxMachine}
use magic_wormhole_rs.Core.Rendezvous.Machine
use magic_wormhole_rs.Core.Rendezvous.Server.{
  RendezvousServer, send_message, receive_reply, send_peer_message, deliver, next_fresh,
  next_queued, next_in, next_peer_message,
}
use magic_wormhole_rs.Core.Rendezvous.Setup.{
  release_nameplate, release_step, expect_nameplate, expect_released, clear_nameplate,
}
use magic_wormhole_rs.Core.Rendezvous.Fifo.{peer_messages}
use magic_wormhole_rs.Core.Rendezvous.Todo.{
  fresh_messages, todo_at, todo, after-keeps, send_message-todo, receive_reply-todo,
}

-- What one call of `next_peer_message` passes on.
abbrev pub passed : Outcome RendezvousError (Option EncryptedMessage) → List EncryptedMessage
passed (ok (some x)) = x ∷ []
passed _ = []

abbrev Hears :
    List EncryptedMessage
    → Outcome RendezvousError (Option EncryptedMessage) × RendezvousServer
    → Type 0
Hears before r = before ≡ passed r.0 ++ todo r.1

deliver-Hears :
    (m : MailboxMachine) (x : EncryptedMessage) (s : RendezvousServer)
    → Hears
        (fresh_messages s.side m.processed (x ∷ (m.queue ++ peer_messages s.connection.incoming)))
        (deliver m x s)
unfolding deliver Machine.receive_message fresh_messages
deliver-Hears m x s = elim (Bool-cases (bytes_eq x.side s.side)) [
  | inl own ↦ rw (own, deliver, Machine.receive_message) refl
  | inr theirs ↦ elim (Bool-cases (contains x.phase m.processed)) [
    | inl old ↦ rw (theirs, old, deliver, Machine.receive_message) refl
    | inr new ↦ rw (theirs, new, deliver, Machine.receive_message) refl
  ]
]

next_event-Hears :
    (m : MailboxMachine) (e : WsEvent) (s : RendezvousServer)
    → m.queue ≡ []
    → s.state ≡ some m
    → Hears (todo_at s.side (e ∷ s.connection.incoming) (some m)) (next_fresh m (read_event e) s)
unfolding next_fresh read_event
next_event-Hears m (text (message x)) s q h =
    let later = peer_messages s.connection.incoming in
    ap (λ l. fresh_messages s.side m.processed (l ++ (x ∷ later))) q
    ∙ ap (λ l. fresh_messages s.side m.processed (x ∷ (l ++ later))) (sym q)
    ∙ deliver-Hears m x s
next_event-Hears m (text unknown) s q h = ap (todo_at s.side s.connection.incoming) (sym h)
next_event-Hears m (text (error e orig)) s q h = ap (todo_at s.side s.connection.incoming) (sym h)
next_event-Hears m (text other) s q h = ap (todo_at s.side s.connection.incoming) (sym h)
next_event-Hears m e s q h = ap (todo_at s.side s.connection.incoming) (sym h)

next_read-Hears :
    (m : MailboxMachine) (es : List WsEvent) (s : RendezvousServer)
    → s.connection.incoming ≡ es
    → m.queue ≡ []
    → s.state ≡ some m
    → let (o, c) = read_first es s.connection in
      Hears (todo_at s.side es (some m)) (next_fresh m o (record s { connection = c }))
unfolding read_first next_fresh
next_read-Hears m [] s i q h = λ j. todo_at s.side (sym i j) (sym h j)
next_read-Hears m (e ∷ es) s i q h =
    next_event-Hears m e (record s { connection = record (s.connection) { incoming = es } }) q h

next_queued-Hears :
    (m : MailboxMachine) (q : MessageQueue) (s : RendezvousServer)
    → m.queue ≡ q
    → s.state ≡ some m
    → Hears (todo s) (next_queued m q s)
unfolding next_queued Wire.receive_message
next_queued-Hears m [] s q h =
    ap (todo_at s.side s.connection.incoming) h ∙ next_read-Hears m s.connection.incoming s refl q h
next_queued-Hears m (x ∷ rest) s q h =
    ap (todo_at s.side s.connection.incoming) h
    ∙ ap (λ l. fresh_messages s.side m.processed (l ++ peer_messages s.connection.incoming)) q
    ∙ deliver-Hears (record m { queue = rest }) x s

next_in-Hears :
    (o : Option MailboxMachine) (s : RendezvousServer) → s.state ≡ o → Hears (todo s) (next_in o s)
unfolding next_in
next_in-Hears none s h = refl
next_in-Hears (some m) s h = next_queued-Hears m m.queue s refl h

pub next_peer_message-Hears : (s : RendezvousServer) → Hears (todo s) (next_peer_message s)
unfolding next_peer_message
next_peer_message-Hears s = next_in-Hears s.state s refl

expect_nameplate-todo : (s : RendezvousServer) → todo (expect_nameplate s).1 ≡ todo s
unfolding expect_nameplate
expect_nameplate-todo s = ground arith

expect_released-todo :
    (r : RendezvousReply) (s : RendezvousServer) → todo (expect_released r s).1 ≡ todo s
unfolding expect_released
expect_released-todo released_reply s = refl
expect_released-todo other s = refl

clear_nameplate-todo : (s : RendezvousServer) → todo (clear_nameplate s).1 ≡ todo s
unfolding clear_nameplate
clear_nameplate-todo s = ground arith

release_step-todo : (n : Nameplate) (s : RendezvousServer) → todo (release_step n s).1 ≡ todo s
release_step-todo n s =
    after-keeps todo (todo s) (send_message (release n) s) _ (send_message-todo (release n) s)
      λ _ t.
        after-keeps todo (todo t) (receive_reply t) _ (receive_reply-todo t) expect_released-todo

pub release_nameplate-todo : (s : RendezvousServer) → todo (release_nameplate s).1 ≡ todo s
unfolding release_nameplate
release_nameplate-todo s =
    after-keeps todo (todo s) (expect_nameplate s) _ (expect_nameplate-todo s) λ n t.
      after-keeps todo (todo t) (release_step n t) _ (release_step-todo n t)
        (λ _. clear_nameplate-todo)

-- What a client does with an open mailbox.
pub data Op : Type 0 where
  say : Phase → Bytes → Op
  hear : Op
  free_nameplate : Op

-- A run of calls, each whatever the outcome of those before it: the messages passed on, in order, and
-- the server that is left.
unfoldable pub run : List Op → RendezvousServer → List EncryptedMessage × RendezvousServer
run [] s = ([], s)
run (say p b ∷ ops) s = run ops (send_peer_message p b s).1
run (free_nameplate ∷ ops) s = run ops (release_nameplate s).1
run (hear ∷ ops) s =
    let (o, t) = next_peer_message s in let (xs, u) = run ops t in (passed o ++ xs, u)

-- Over any run of sends, receives and releases, whatever fails in it, the messages passed on and those
-- that are left to pass on together are the messages that the specification allows of what was
-- queued and what has arrived: each message from the other side with a new phase, once and in order.
pub run-Refines :
    (ops : List Op) (s : RendezvousServer) → todo s ≡ (run ops s).0 ++ todo (run ops s).1
unfolding run send_peer_message
run-Refines [] s = refl
run-Refines (say p b ∷ ops) s =
    sym (send_message-todo (add p b) s) ∙ run-Refines ops (send_message (add p b) s).1
run-Refines (free_nameplate ∷ ops) s =
    sym (release_nameplate-todo s) ∙ run-Refines ops (release_nameplate s).1
run-Refines (hear ∷ ops) s =
    let (o, t) = next_peer_message s in
    next_peer_message-Hears s
    ∙ ap (λ l. passed o ++ l) (run-Refines ops t)
    ∙ sym (append_assoc (passed o) (run ops t).0 (todo (run ops t).1))
