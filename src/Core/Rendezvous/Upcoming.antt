-- ===== src/Core/Rendezvous/Upcoming.antt =====
-- The message that `next_peer_message_some` of src/core/rendezvous.rs passes on.
use magic_wormhole_rs.Common.{
  ℕ, zero, suc, ◌≡◌, List, ◌∷◌, ◌++◌, Option, none, some, Outcome, ok, err, panic, pending, Action,
  ap, ◌∙◌,
}
use magic_wormhole_rs.Core.Messages.{EncryptedMessage}
use magic_wormhole_rs.Core.Rendezvous.Wire.{RendezvousError}
use magic_wormhole_rs.Core.Rendezvous.Server.{
  RendezvousServer, next_peer_message, next_peer_message_some, next_some_loop, next_on, rounds,
}
use magic_wormhole_rs.Core.Rendezvous.Todo.{todo}
use magic_wormhole_rs.Core.Rendezvous.Refinement.{next_peer_message-Hears, passed}

next_on-todo :
    (rest : Action RendezvousServer RendezvousError EncryptedMessage) (xs : List EncryptedMessage)
    (r : Outcome RendezvousError (Option EncryptedMessage) × RendezvousServer)
    → ((s t : RendezvousServer) (x : EncryptedMessage) → rest s ≡ (ok x, t) → todo s ≡ x ∷ todo t)
    → xs ≡ passed r.0 ++ todo r.1
    → (t : RendezvousServer) (x : EncryptedMessage) → next_on rest r ≡ (ok x, t)
    → xs ≡ x ∷ todo t
next_on-todo rest xs (ok none, s) ih h t x e = h ∙ ih s t x e
next_on-todo rest xs (ok (some y), s) ih h t x e = h ∙ λ j. (same j) ∷ todo (left j)
  where
    left : s ≡ t
    left = ap (λ r. r.1) e

    same : y ≡ x
    same = cc e
next_on-todo rest xs (err y, s) ih h t x e = cc
next_on-todo rest xs (panic, s) ih h t x e = cc
next_on-todo rest xs (pending, s) ih h t x e = cc

next_some_loop-todo :
    (fuel : ℕ) (s t : RendezvousServer) (x : EncryptedMessage)
    → next_some_loop fuel s ≡ (ok x, t)
    → todo s ≡ x ∷ todo t
unfolding next_some_loop
next_some_loop-todo zero s t x h = cc
next_some_loop-todo (suc fuel) s t x h =
    next_on-todo (next_some_loop fuel) (todo s) (next_peer_message s) (next_some_loop-todo fuel)
      (next_peer_message-Hears s) t x h

-- The message that `next_peer_message_some` gives is the first one that there is to pass on.
pub next_peer_message_some-todo :
    (s t : RendezvousServer) (x : EncryptedMessage)
    → next_peer_message_some s ≡ (ok x, t)
    → todo s ≡ x ∷ todo t
unfolding next_peer_message_some
next_peer_message_some-todo s t x h = next_some_loop-todo (rounds s) s t x h
