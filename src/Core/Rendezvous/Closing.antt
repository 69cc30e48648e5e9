-- ===== src/Core/Rendezvous/Closing.antt =====
-- How `release_nameplate` and `shutdown` of src/core/rendezvous.rs give back what the client holds.
use mathlib.Core.List.{append-nil}
use magic_wormhole_rs.Common.{
  ◌≡◌, refl, List, [], ◌∷◌, ◌++◌, Option, none, some, arith, false, ok, ap, ◌∙◌, sym, after-eq-ok,
}
use magic_wormhole_rs.Core.Names.{Nameplate, Mood}
use magic_wormhole_rs.Core.Messages.{OutboundMessage, release, close}
use magic_wormhole_rs.Core.Rendezvous.Wire.{RendezvousReply, released_reply, closed_reply}
use magic_wormhole_rs.Core.Rendezvous.Machine.{MailboxMachine}
use magic_wormhole_rs.Core.Rendezvous.Server.{RendezvousServer}
use magic_wormhole_rs.Core.Rendezvous.Setup.{
  release_nameplate, shutdown, needs_nameplate_release, expect_released, expect_closed,
  expect_nameplate, clear_nameplate, release_held, close_mailbox, close_socket, release_step,
  nameplate_in,
}
use magic_wormhole_rs.Core.Rendezvous.Protocol.{Says, Says-trans, exchange}

expected_released :
    (r : RendezvousReply) (s t : RendezvousServer) → expect_released r s ≡ (ok tt, t) → t ≡ s
unfolding expect_released
expected_released released_reply s t h = sym (ap (λ x. x.1) h)
expected_released r s t h = cc

expected_closed :
    (r : RendezvousReply) (s t : RendezvousServer) → expect_closed r s ≡ (ok tt, t) → t ≡ s
unfolding expect_closed
expected_closed closed_reply s t h = sym (ap (λ x. x.1) h)
expected_closed r s t h = cc

release_step-Says :
    (n : Nameplate) (s t : RendezvousServer)
    → release_step n s ≡ (ok tt, t)
    → Says s (release n ∷ []) t
release_step-Says n s t h =
    let (r, u, says, e) = exchange (release n) expect_released s t tt h in
    rw (expected_released r u t e) says

abbrev pub releases : Option Nameplate → List OutboundMessage
releases none = []
releases (some n) = release n ∷ []

-- What a client that leaves owes the server: the nameplate if it still holds it, and the mailbox.
abbrev pub farewell : Option MailboxMachine → Mood → List OutboundMessage
farewell none mood = []
farewell (some m) mood = releases m.nameplate ++ (close m.mailbox mood ∷ [])

Says-refl : (s : RendezvousServer) → Says s [] s
Says-refl s = record {
  said = sym (append-nil s.connection.sent);
  place_kept = refl;
  side_kept = refl;
}

release_held-Says :
    (n : Option Nameplate) (s t : RendezvousServer)
    → release_held n s ≡ (ok tt, t)
    → Says s (releases n) t
unfolding release_held
release_held-Says none s t h = let e : s ≡ t = ap (λ x. x.1) h in rw (← e) (Says-refl s)
release_held-Says (some n) s t h = release_step-Says n s t h

close_mailbox-Says :
    (o : Option MailboxMachine) (mood : Mood) (s t : RendezvousServer)
    → close_mailbox o mood s ≡ (ok tt, t)
    → Says s (farewell o mood) t
unfolding close_mailbox
close_mailbox-Says none mood s t h = let e : s ≡ t = ap (λ x. x.1) h in rw (← e) (Says-refl s)
close_mailbox-Says (some m) mood s t h =
    let (a, u, e, f) = after-eq-ok (release_held m.nameplate s) _ h in
    let (r, v, says, g) = exchange (close m.mailbox mood) expect_closed u t tt f in
    Says-trans (release_held-Says m.nameplate s u e) (rw (expected_closed r v t g) says)

-- A `shutdown` that succeeds has released the nameplate if it was still held, and closed the
-- mailbox with the given mood if there was one, in that order, and has sent nothing else.
pub shutdown-farewell :
    (mood : Mood) (s t : RendezvousServer)
    → shutdown mood s ≡ (ok tt, t)
    → t.connection.sent ≡ s.connection.sent ++ farewell s.state mood
unfolding shutdown close_socket
shutdown-farewell mood s t h =
    let (a, u, e, f) = after-eq-ok (close_mailbox s.state mood s) (λ _. close_socket) h in
    let kept : u ≡ t = ground arith in rw (← kept) (close_mailbox-Says s.state mood s u e).said

held_nameplate :
    (s u : RendezvousServer) (n : Nameplate)
    → expect_nameplate s ≡ (ok n, u)
    → (nameplate_in s.state ≡ some n) × (u ≡ s)
unfolding expect_nameplate
held_nameplate s u n h = ground arith

cleared :
    (v t : RendezvousServer)
    → clear_nameplate v ≡ (ok tt, t)
    → (t.connection.sent ≡ v.connection.sent) × (needs_nameplate_release t ≡ false)
unfolding clear_nameplate needs_nameplate_release
cleared v t h = ground arith

-- `release_nameplate` succeeds only while a nameplate is held; it has then sent exactly `release`
-- for it, and no release is needed any more, so that `shutdown` does not release it again.
pub release_nameplate_lem :
    (s t : RendezvousServer)
    → release_nameplate s ≡ (ok tt, t)
    → (n : Nameplate) × (nameplate_in s.state ≡ some n)
      × (t.connection.sent ≡ s.connection.sent ++ (release n ∷ []))
      × (needs_nameplate_release t ≡ false)
unfolding release_nameplate
release_nameplate_lem s t h =
    let (n, u, e, f) = after-eq-ok (expect_nameplate s) _ h in
    let (a, v, e2, f2) = after-eq-ok (release_step n u) (λ _. clear_nameplate) f in
    let (held, same) = held_nameplate s u n e in
    let (said, free) = cleared v t f2 in
    (
      n,
      held,
      said
          ∙ (release_step-Says n u v e2).said
          ∙ ap (λ x. x.connection.sent ++ (release n ∷ [])) same,
      free,
    )
