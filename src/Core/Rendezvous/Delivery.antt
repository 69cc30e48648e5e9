-- ===== src/Core/Rendezvous/Delivery.antt =====
-- What `next_peer_message` of src/core/rendezvous.rs passes on to the wormhole.
use mathlib.Core.Path.{subst}
use magic_wormhole_rs.Common.{
  ℕ, zero, suc, ◌≡◌, refl, List, [], ◌∷◌, Option, none, some, arith, true, false, Outcome, ok, err,
  panic, pending, inl, inr, bytes_eq, bytes_eq_iff, contains, Bool-cases,
}
use magic_wormhole_rs.Core.Names.{Phase, MySide}
use magic_wormhole_rs.Core.Messages.{EncryptedMessage, InboundMessage, message}
use magic_wormhole_rs.Core.Rendezvous.Wire.{RendezvousError, MessageQueue}
use magic_wormhole_rs.Core.Rendezvous.Wire
use magic_wormhole_rs.Core.Rendezvous.Machine.{MailboxMachine}
use magic_wormhole_rs.Core.Rendezvous.Machine
use magic_wormhole_rs.Core.Rendezvous.Server.{
  RendezvousServer, deliver, next_fresh, next_queued, next_in, next_peer_message,
}

abbrev pub processed_in : Option MailboxMachine → List Phase
processed_in none = []
processed_in (some m) = m.processed

abbrev pub processed_of : RendezvousServer → List Phase
processed_of s = processed_in s.state

contains_cons : (p : Phase) (xs : List Phase) → contains p (p ∷ xs) ≡ true
unfolding contains
contains_cons p xs = rw ((bytes_eq_iff p p).1 refl)

contains_later : (p x : Phase) (xs : List Phase) → contains p xs ≡ true → contains p (x ∷ xs) ≡ true
unfolding contains
contains_later p x xs h = ground arith

-- One call from `s`: no phase is forgotten, the side stays, and a message passed on has a phase that
-- was not processed before, is now, and does not carry our own side.
pub record Once (s : RendezvousServer)
    (r : Outcome RendezvousError (Option EncryptedMessage) × RendezvousServer) : Type 0 where
  pub kept : (p : Phase) → contains p (processed_of s) ≡ true → contains p (processed_of r.1) ≡ true
  pub side_kept : r.1.side ≡ s.side
  pub passed :
      (x : EncryptedMessage)
      → r.0 ≡ ok (some x)
      → (contains x.phase (processed_of s) ≡ false)
        × (contains x.phase (processed_of r.1) ≡ true)
        × (bytes_eq x.side s.side ≡ false)

-- The same for a call that passes no message on and leaves the machine alone.
quiet :
    (s t : RendezvousServer) (o : Outcome RendezvousError (Option EncryptedMessage))
    → processed_of t ≡ processed_of s
    → t.side ≡ s.side
    → ((x : EncryptedMessage) → o ≡ ok (some x) → ⊥)
    → Once s (o, t)
quiet s t o e d h = record { kept = λ p k. rw e k; side_kept = d; passed = λ x q. absurd (h x q) }

deliver-Once :
    (m : MailboxMachine) (x : EncryptedMessage) (s t : RendezvousServer)
    → m.processed ≡ processed_of s
    → t.side ≡ s.side
    → Once s (deliver m x t)
unfolding deliver Machine.receive_message
deliver-Once m x s t e d = elim (Bool-cases (bytes_eq x.side t.side)) [
  | inl own ↦
      rw (own, deliver, Machine.receive_message)
        (quiet s (record t { state = some m }) _ e d (λ y q. cc))
  | inr theirs ↦ elim (Bool-cases (contains x.phase m.processed)) [
    | inl old ↦
        rw (theirs, old, deliver, Machine.receive_message)
          (quiet s (record t { state = some m }) _ e d (λ y q. cc))
    | inr new ↦
        rw (theirs, new, deliver, Machine.receive_message)
          (record {
            kept = λ p k. contains_later p x.phase m.processed (rw e k);
            side_kept = d;
            passed = λ y q.
                let same : x ≡ y = cc in
                rw (← same) (rw (← e) new, contains_cons x.phase m.processed, rw (← d) theirs);
          })
  ]
]

next_fresh-Once :
    (m : MailboxMachine) (o : Outcome RendezvousError (Option InboundMessage))
    (s t : RendezvousServer)
    → m.processed ≡ processed_of s
    → processed_of t ≡ processed_of s
    → t.side ≡ s.side
    → Once s (next_fresh m o t)
unfolding next_fresh
next_fresh-Once m (ok none) s t e f d = quiet s t _ f d (λ y q. cc)
next_fresh-Once m (ok (some (message x))) s t e f d = deliver-Once m x s t e d
next_fresh-Once m (ok (some other)) s t e f d = quiet s t _ f d (λ y q. cc)
next_fresh-Once m (err x) s t e f d = quiet s t _ f d (λ y q. cc)
next_fresh-Once m panic s t e f d = quiet s t _ f d (λ y q. cc)
next_fresh-Once m pending s t e f d = quiet s t _ f d (λ y q. cc)

next_queued-Once :
    (m : MailboxMachine) (q : MessageQueue) (s : RendezvousServer)
    → m.processed ≡ processed_of s
    → Once s (next_queued m q s)
unfolding next_queued
next_queued-Once m [] s e =
    next_fresh-Once m (Wire.receive_message s.connection).0 s
      (record s { connection = (Wire.receive_message s.connection).1 }) e refl refl
next_queued-Once m (x ∷ q) s e = deliver-Once (record m { queue = q }) x s s e refl

next_in-Once :
    (o : Option MailboxMachine) (s : RendezvousServer) → s.state ≡ o → Once s (next_in o s)
unfolding next_in
next_in-Once none s e = quiet s s _ refl refl (λ y q. cc)
next_in-Once (some m) s e = next_queued-Once m m.queue s (rw e)

pub next_peer_message-Once : (s : RendezvousServer) → Once s (next_peer_message s)
unfolding next_peer_message
next_peer_message-Once s = next_in-Once s.state s refl

-- Repeated calls of `next_peer_message`, to the first that fails: the messages passed on.
abbrev pub collect :
    Outcome RendezvousError (Option EncryptedMessage)
    → List EncryptedMessage
    → List EncryptedMessage
collect (ok (some x)) rest = x ∷ rest
collect (ok none) rest = rest
collect _ rest = []

unfoldable pub deliveries : ℕ → RendezvousServer → List EncryptedMessage
deliveries zero s = []
deliveries (suc n) s = collect (next_peer_message s).0 (deliveries n (next_peer_message s).1)

-- No message has our side, and no phase stands in `seen` or twice.
abbrev pub Fresh : MySide → List Phase → List EncryptedMessage → Type 0
Fresh side seen [] = Unit {0}
Fresh side seen (x ∷ xs) =
    (contains x.phase seen ≡ false)
    × (bytes_eq x.side side ≡ false)
    × Fresh side (x.phase ∷ seen) xs

contains_both :
    (y : Phase) (a b : List Phase)
    → ((p : Phase) → contains p b ≡ true → contains p a ≡ true)
    → (p : Phase) → contains p (y ∷ b) ≡ true
    → contains p (y ∷ a) ≡ true
unfolding contains
contains_both y a b s p h = ground (arith, s p)

contains_of_cons :
    (y : Phase) (a b : List Phase)
    → ((p : Phase) → contains p b ≡ true → contains p a ≡ true)
    → contains y a ≡ true
    → (p : Phase) → contains p (y ∷ b) ≡ true
    → contains p a ≡ true
unfolding contains
contains_of_cons y a b s ya p h = ground (arith, s p, bytes_eq_iff y p)

not_contained :
    (y : Phase) (a b : List Phase)
    → ((p : Phase) → contains p b ≡ true → contains p a ≡ true)
    → contains y a ≡ false
    → contains y b ≡ false
not_contained y a b s h = ground (arith, s y)

Fresh-mono :
    (side : MySide) (more seen : List Phase) (xs : List EncryptedMessage)
    → ((p : Phase) → contains p seen ≡ true → contains p more ≡ true)
    → Fresh side more xs
    → Fresh side seen xs
Fresh-mono side more seen [] sub f = tt
Fresh-mono side more seen (x ∷ xs) sub f = (
  not_contained x.phase more seen sub f.0,
  f.1,
  Fresh-mono side (x.phase ∷ more) (x.phase ∷ seen) xs (contains_both x.phase more seen sub) f.2,
)

collect-Fresh :
    (s : RendezvousServer) (o : Outcome RendezvousError (Option EncryptedMessage))
    (t : RendezvousServer) (rest : List EncryptedMessage)
    → Once s (o, t)
    → Fresh s.side (processed_of t) rest
    → Fresh s.side (processed_of s) (collect o rest)
collect-Fresh s (ok none) t rest once f =
    Fresh-mono s.side (processed_of t) (processed_of s) rest once.kept f
collect-Fresh s (ok (some x)) t rest once f =
    let (new, now, theirs) = once.passed x refl in
    (
      new,
      theirs,
      Fresh-mono s.side (processed_of t) (x.phase ∷ processed_of s) rest
          (contains_of_cons x.phase (processed_of t) (processed_of s) once.kept now) f,
    )
collect-Fresh s (err e) t rest once f = tt
collect-Fresh s panic t rest once f = tt
collect-Fresh s pending t rest once f = tt

-- However often `next_peer_message` is called, and whatever the server sends, the messages passed on
-- have distinct phases, none of a phase processed before, and none carries our own side.
pub deliveries-Fresh :
    (n : ℕ) (s : RendezvousServer) → Fresh s.side (processed_of s) (deliveries n s)
unfolding deliveries
deliveries-Fresh zero s = tt
deliveries-Fresh (suc n) s =
    let once = next_peer_message-Once s in
    let t : RendezvousServer = (next_peer_message s).1 in
    collect-Fresh s (next_peer_message s).0 t (deliveries n t) once
      (subst (λ d. Fresh d (processed_of t) (deliveries n t)) once.side_kept (deliveries-Fresh n t))
