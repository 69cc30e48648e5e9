-- ===== src/Core/Rendezvous/Protocol.antt =====
-- What the operations of `RendezvousServer` in src/core/rendezvous.rs say to the server when they
-- succeed, and the mailbox that they leave.
use mathlib.Core.List.{append_assoc, append-nil}
use magic_wormhole_rs.Common.{
  ◌≡◌, refl, List, [], ◌∷◌, ◌++◌, Option, none, some, ok, ap, ◌∙◌, sym, Action, after, after-eq-ok,
}
use magic_wormhole_rs.Core.Names.{Mailbox, Nameplate, Phase}
use magic_wormhole_rs.Core.Messages.{OutboundMessage, allocate, claim, open_mailbox}
use magic_wormhole_rs.Core.Rendezvous.Wire.{
  Connection, WsError, RendezvousError, RendezvousReply, MessageQueue, allocated_reply,
  claimed_reply, send_text, send_frame,
}
use magic_wormhole_rs.Core.Rendezvous.Receive.{Wire, on_connection, run_loop, receive_ack}
use magic_wormhole_rs.Core.Rendezvous.Receive
use magic_wormhole_rs.Core.Rendezvous.Machine.{MailboxMachine}
use magic_wormhole_rs.Core.Rendezvous.Server.{
  RendezvousServer, queue_of, put_queue, on_wire, send_message, receive_reply,
}
use magic_wormhole_rs.Core.Rendezvous.Setup.{
  allocate_claim_open, claim_open, assert_initial, expect_allocated, expect_claimed, set_mailbox,
}

-- A mailbox without its queue, which grows while the client waits.
abbrev pub Place : Type 0
Place = Option Nameplate × Mailbox × List Phase

abbrev pub place : Option MailboxMachine → Option Place
place none = none
place (some m) = some (m.nameplate, m.mailbox, m.processed)

-- From `s` to `t` exactly the messages `ms` were sent, and the mailbox is as it was but for its queue.
pub record Says (s : RendezvousServer) (ms : List OutboundMessage) (t : RendezvousServer)
    : Type 0 where
  pub said : t.connection.sent ≡ s.connection.sent ++ ms
  pub place_kept : place t.state ≡ place s.state
  pub side_kept : t.side ≡ s.side

pub Says-trans :
    {s t u : RendezvousServer} {ms ns : List OutboundMessage}
    → Says s ms t
    → Says t ns u
    → Says s (ms ++ ns) u
Says-trans {s} {t} {u} {ms} {ns} a b = record {
  said = b.said ∙ ap (λ l. l ++ ns) a.said ∙ append_assoc s.connection.sent ms ns;
  place_kept = b.place_kept ∙ a.place_kept;
  side_kept = b.side_kept ∙ a.side_kept;
}

place-put_queue :
    (o : Option MailboxMachine) (q : Option MessageQueue) → place (put_queue o q) ≡ place o
unfolding put_queue
place-put_queue none q = refl
place-put_queue (some m) none = refl
place-put_queue (some m) (some q) = refl

send_frame-sent :
    (fs : List (Option WsError)) (m : OutboundMessage) (c : Connection)
    → (send_frame fs m c).0 ≡ ok tt
    → (send_frame fs m c).1.sent ≡ c.sent ++ (m ∷ [])
unfolding send_frame
send_frame-sent [] m c h = refl
send_frame-sent (none ∷ fs) m c h = refl
send_frame-sent (some e ∷ fs) m c h = cc

wire_send :
    (m : OutboundMessage) (w v : Wire)
    → Receive.send_message m w ≡ (ok tt, v)
    → v.connection.sent ≡ w.connection.sent ++ (m ∷ [])
unfolding Receive.send_message receive_ack send_text
wire_send m w v h =
    let (a, u, e, f) = after-eq-ok (on_connection (send_text m) w) (λ _. receive_ack) h in
    sym (ap (λ r. r.1.connection.sent) f)
    ∙ sym (ap (λ r. r.1.connection.sent) e)
    ∙ send_frame-sent w.connection.send_faults m w.connection (ap (λ r. r.0) e)

wire_reply :
    (w v : Wire) (r : RendezvousReply)
    → Receive.receive_reply w ≡ (ok r, v)
    → v.connection.sent ≡ w.connection.sent
unfolding Receive.receive_reply
wire_reply w v r h = sym (ap (λ x. x.1.connection.sent) h)

-- A call on the socket that said `ms` there.
on_wire-Says :
    {A : Type 0} (f : Action Wire RendezvousError A) (ms : List OutboundMessage)
    → ((w v : Wire) (a : A) → f w ≡ (ok a, v) → v.connection.sent ≡ w.connection.sent ++ ms)
    → (s t : RendezvousServer) (a : A) → on_wire f s ≡ (ok a, t)
    → Says s ms t
unfolding on_wire
on_wire-Says f ms says s t a h =
    let w : Wire = record { connection = s.connection; queue = queue_of s.state } in
    record {
      said = sym (ap (λ r. r.1.connection.sent) h) ∙ says w (f w).1 a (λ i. ((h i).0, (f w).1));
      place_kept = sym (ap (λ r. place r.1.state) h) ∙ place-put_queue s.state (f w).1.queue;
      side_kept = sym (ap (λ r. r.1.side) h);
    }

pub send_message-Says :
    (m : OutboundMessage) (s t : RendezvousServer)
    → send_message m s ≡ (ok tt, t)
    → Says s (m ∷ []) t
unfolding send_message
send_message-Says m s t h =
    on_wire-Says (Receive.send_message m) (m ∷ []) (λ w v a e. wire_send m w v e) s t tt h

pub receive_reply-Says :
    (s t : RendezvousServer) (r : RendezvousReply) → receive_reply s ≡ (ok r, t) → Says s [] t
unfolding receive_reply
receive_reply-Says s t r h =
    on_wire-Says Receive.receive_reply []
      (λ w v a e. wire_reply w v a e ∙ sym (append-nil w.connection.sent)) s t r h

-- A request and its reply, in a chain that ended well.
pub exchange :
    {B : Type 0} (m : OutboundMessage)
    (k : RendezvousReply → Action RendezvousServer RendezvousError B) (s t : RendezvousServer)
    (b : B)
    → after (send_message m s) (λ _ u. after (receive_reply u) k) ≡ (ok b, t)
    → (r : RendezvousReply) × (u : RendezvousServer) × Says s (m ∷ []) u × (k r u ≡ (ok b, t))
exchange m k s t b h =
    let (a, s1, e1, f1) = after-eq-ok (send_message m s) (λ _ u. after (receive_reply u) k) h in
    let (r, u, e2, f2) = after-eq-ok (receive_reply s1) k f1 in
    (r, u, Says-trans (send_message-Says m s s1 e1) (receive_reply-Says s1 u r e2), f2)

module _ {B : Type 0} (s t : RendezvousServer) (b : B) where
  expected_allocated :
      (r : RendezvousReply) (k : Nameplate → Action RendezvousServer RendezvousError B)
      → after (expect_allocated r s) k ≡ (ok b, t)
      → (n : Nameplate) × (k n s ≡ (ok b, t))
  unfolding expect_allocated
  expected_allocated (allocated_reply n) k h = (n, h)
  expected_allocated r k h = cc

  expected_claimed :
      (r : RendezvousReply) (k : Mailbox → Action RendezvousServer RendezvousError B)
      → after (expect_claimed r s) k ≡ (ok b, t)
      → (m : Mailbox) × (k m s ≡ (ok b, t))
  unfolding expect_claimed
  expected_claimed (claimed_reply m) k h = (m, h)
  expected_claimed r k h = cc

  initial :
      (k : Action RendezvousServer RendezvousError B)
      → after (assert_initial s) (λ _. k) ≡ (ok b, t)
      → (s.state ≡ none) × (k s ≡ (ok b, t))
  unfolding assert_initial
  initial k h = go s.state refl
    where
      go : (o : Option MailboxMachine) → s.state ≡ o → (s.state ≡ none) × (k s ≡ (ok b, t))
      go none e = (e, rw (e, assert_initial) at h)
      go (some m) e = let h' = rw (e, assert_initial) at h in cc

-- The state that opening a mailbox leaves: the nameplate held, and nothing received yet.
abbrev pub opened : Option Nameplate → Mailbox → Option MailboxMachine
opened n m = some (record { nameplate = n; mailbox = m; queue = []; processed = [] })

-- From `s` to `t` the mailbox was opened by sending exactly `ms`.
pub record Opens (s : RendezvousServer) (ms : List OutboundMessage) (n : Option Nameplate)
    (m : Mailbox) (t : RendezvousServer) : Type 0 where
  pub was_initial : s.state ≡ none
  pub said : t.connection.sent ≡ s.connection.sent ++ ms
  pub is_open : t.state ≡ opened n m
  pub side_kept : t.side ≡ s.side

-- The last step of opening: `open`, then the new state.
open_last :
    {B : Type 0} (n : Option Nameplate) (m : Mailbox) (c b : B) (s t : RendezvousServer)
    → after (send_message (open_mailbox m) s) (λ _ u. after (set_mailbox n m u) (λ _ v. (ok c, v)))
      ≡ (ok b, t)
    → (c ≡ b)
      × (t.connection.sent ≡ s.connection.sent ++ (open_mailbox m ∷ []))
      × (t.state ≡ opened n m)
      × (t.side ≡ s.side)
unfolding set_mailbox
open_last n m c b s t h =
    let (a, u, e, f) =
      after-eq-ok (send_message (open_mailbox m) s)
        (λ _ u. after (set_mailbox n m u) (λ _ v. (ok c, v))) h in
    let says = send_message-Says (open_mailbox m) s u e in
    (
      cc f,
      sym (ap (λ r. r.1.connection.sent) f) ∙ says.said,
      sym (ap (λ r. r.1.state) f),
      sym (ap (λ r. r.1.side) f) ∙ says.side_kept,
    )

-- `claim`, its reply, and the last step.
abbrev claim_rest :
    {B : Type 0} → (Mailbox → B) → Nameplate → Action RendezvousServer RendezvousError B
claim_rest give n s = after (send_message (claim n) s) λ _ u. after (receive_reply u) λ r v.
    after (expect_claimed r v) λ m w.
      after (send_message (open_mailbox m) w)
        λ _ x. after (set_mailbox (some n) m x) λ _ y. (ok (give m), y)

claim_rest_lem :
    {B : Type 0} (give : Mailbox → B) (n : Nameplate) (b : B) (s t : RendezvousServer)
    → claim_rest give n s ≡ (ok b, t)
    → (m : Mailbox) × (give m ≡ b)
      × (t.connection.sent ≡ s.connection.sent ++ (claim n ∷ open_mailbox m ∷ []))
      × (t.state ≡ opened (some n) m)
      × (t.side ≡ s.side)
claim_rest_lem give n b s t h =
    let (r, u, says, h1) = exchange (claim n) _ s t b h in
    let (m, h2) = expected_claimed u t b r _ h1 in
    let (e, said, state, side) = open_last (some n) m (give m) b u t h2 in
    (
      m,
      e,
      said
          ∙ ap (λ l. l ++ (open_mailbox m ∷ [])) says.said
          ∙ append_assoc s.connection.sent (claim n ∷ []) (open_mailbox m ∷ []),
      state,
      side ∙ says.side_kept,
    )

-- `claim_open` succeeds only from the initial state; it has then sent `claim` and `open` in that
-- order, for its nameplate and the mailbox that it returns, and nothing else.
pub claim_open-Opens :
    (s t : RendezvousServer) (n : Nameplate) (m : Mailbox)
    → claim_open n s ≡ (ok m, t)
    → Opens s (claim n ∷ open_mailbox m ∷ []) (some n) m t
unfolding claim_open
claim_open-Opens s t n m h =
    let (init, h1) = initial s t m (claim_rest (λ k. k) n) h in
    let (k, e, said, state, side) = claim_rest_lem (λ k. k) n m s t h1 in
    record { was_initial = init; said = rw e at said; is_open = rw e at state; side_kept = side }

-- `allocate_claim_open` succeeds only from the initial state; it has then sent `allocate`, `claim`
-- and `open` in that order, for the nameplate and the mailbox that it returns, and nothing else.
pub allocate_claim_open-Opens :
    (s t : RendezvousServer) (n : Nameplate) (m : Mailbox)
    → allocate_claim_open s ≡ (ok (n, m), t)
    → Opens s (allocate ∷ claim n ∷ open_mailbox m ∷ []) (some n) m t
unfolding allocate_claim_open
allocate_claim_open-Opens s t n m h =
    let (init, h1) = initial s t (n, m) _ h in
    let (r, u, says, h2) = exchange allocate _ s t (n, m) h1 in
    let (k, h3) = expected_allocated u t (n, m) r (λ k. claim_rest (λ l. (k, l)) k) h2 in
    let (l, e, said, state, side) = claim_rest_lem (λ l. (k, l)) k (n, m) u t h3 in
    let en : k ≡ n = ap (λ p. p.0) e in
    let em : l ≡ m = ap (λ p. p.1) e in
    record {
      was_initial = init;
      said =
          rw (en, em) at
            (said
              ∙ ap (λ x. x ++ (claim k ∷ open_mailbox l ∷ [])) says.said
              ∙ append_assoc s.connection.sent (allocate ∷ []) (claim k ∷ open_mailbox l ∷ []));
      is_open = rw (en, em) at state;
      side_kept = side ∙ says.side_kept;
    }
