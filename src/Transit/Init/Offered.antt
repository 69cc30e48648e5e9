-- ===== src/Transit/Init/Offered.antt =====
-- Which direct hints `init` must offer.
use magic_wormhole_rs.Common.{
  ℕ, ◌≡◌, refl, ap, List, [], ◌∷◌, ◌++◌, some, Bool, true, false, ◌⊎◌, inl, inr, Outcome, ok, err,
  panic, pending, All, Bool-cases, arith,
}
use magic_wormhole_rs.Transit.Hints.{
  DirectHint, Hints, has_hint, hint_eq_iff, insert, extend, Interface, local_hints,
}
use magic_wormhole_rs.Transit.Socket.{Socket}
use magic_wormhole_rs.Transit.Stun.{StunError, SocketAddr, get_external_ip}
use magic_wormhole_rs.Transit.Init.Steps.{direct_sockets-parts}
use magic_wormhole_rs.Transit.Init.{
  System, MaybeConnectedSocket, timed, hint_of, insert_direct, first_socket, direct_sockets,
}

-- The address that the STUN query found in time is among the hints.
pub Answered : Outcome StunError (SocketAddr × Socket) → List DirectHint → Type 0
Answered (ok (addr, s)) hs = has_hint (hint_of addr) hs ≡ true
Answered _ hs = Unit

-- Each interface that is no loopback is among the hints with both ports.
pub Covers : ℕ → ℕ → List Interface → List DirectHint → Type 0
Covers port port2 [] hs = Unit
Covers port port2 (i ∷ is) hs =
    ((i.is_loopback ≡ true)
      ⊎ ((has_hint (record { hostname = i.address; port = port }) hs ≡ true)
          × (has_hint (record { hostname = i.address; port = port2 }) hs ≡ true)))
    × Covers port port2 is hs

-- What is offered where connections may be direct, and where not.
abbrev pub Offered : Bool → System → List DirectHint → Type 0
Offered false sys hs = hs ≡ []
Offered true sys hs =
    Answered (timed sys.in_time (get_external_ip sys.query)) hs
    × ((port : ℕ) × (port2 : ℕ) × (is : List Interface) × (sys.local_port ≡ inl (some port))
        × (sys.listener_port ≡ inl port2)
        × (sys.interfaces ≡ inl is)
        × Covers port port2 is hs)

has_hint-append :
    (h k : DirectHint) (xs : List DirectHint) → has_hint h (xs ++ (k ∷ [])) ≡ has_hint h (k ∷ xs)
unfolding has_hint
has_hint-append h k [] = refl
has_hint-append h k (x ∷ xs) = ground (arith, has_hint-append h k xs)

insert-keeps :
    (h k : DirectHint) (xs : List DirectHint)
    → has_hint h xs ≡ true
    → has_hint h (insert k xs) ≡ true
unfolding insert has_hint
insert-keeps h k xs there = elim (Bool-cases (has_hint k xs)) [
  | inl old ↦ rw old there
  | inr new ↦ rw (new, has_hint-append h k xs) (ground (arith, there))
]

has_hint-insert : (h : DirectHint) (xs : List DirectHint) → has_hint h (insert h xs) ≡ true
unfolding insert has_hint
has_hint-insert h xs = elim (Bool-cases (has_hint h xs)) [
  | inl old ↦ rw old old
  | inr new ↦ rw (new, has_hint-append h h xs) (ground (arith, hint_eq_iff h h))
]

extend-keeps :
    (h : DirectHint) (xs hs : List DirectHint)
    → has_hint h xs ≡ true
    → has_hint h (extend xs hs) ≡ true
unfolding extend
extend-keeps h xs [] there = there
extend-keeps h xs (k ∷ hs) there = extend-keeps h (insert k xs) hs (insert-keeps h k xs there)

has_hint-extend : (xs hs : List DirectHint) → All (λ h. has_hint h (extend xs hs) ≡ true) hs
unfolding extend
has_hint-extend xs [] = tt
has_hint-extend xs (h ∷ hs) =
    (extend-keeps h (insert h xs) hs (has_hint-insert h xs), has_hint-extend (insert h xs) hs)

local_hints-Covers :
    (port port2 : ℕ) (is : List Interface) (hs : List DirectHint)
    → All (λ h. has_hint h hs ≡ true) (local_hints port port2 is)
    → Covers port port2 is hs
unfolding local_hints Covers
local_hints-Covers port port2 [] hs all = tt
local_hints-Covers port port2 (i ∷ is) hs all = elim (Bool-cases i.is_loopback) [
  | inl loop ↦ (inl loop, local_hints-Covers port port2 is hs (rw loop at all))
  | inr open_one ↦
      let (p, (q, rest)) = rw open_one at all in
      (inr (p, q), local_hints-Covers port port2 is hs rest)
]

first_socket-Answered :
    (sys : System) (o : Outcome StunError (SocketAddr × Socket)) (s t : Hints)
    (m : MaybeConnectedSocket) (hs : List DirectHint)
    → first_socket sys o s ≡ (ok m, t)
    → Answered o (extend t.direct_tcp hs)
unfolding first_socket insert_direct Answered
first_socket-Answered sys (ok (addr, c)) s t m hs h =
    let e : record s { direct_tcp = insert (hint_of addr) s.direct_tcp } ≡ t = ap (λ r. r.1) h in
    rw (← e) (
      extend-keeps (hint_of addr) (insert (hint_of addr) s.direct_tcp) hs
        (has_hint-insert (hint_of addr) s.direct_tcp))
first_socket-Answered sys (err x) s t m hs h = tt
first_socket-Answered sys panic s t m hs h = tt
first_socket-Answered sys pending s t m hs h = tt

pub direct_sockets-Offered :
    (sys : System) (s t : Hints) (pair : MaybeConnectedSocket × ℕ)
    → direct_sockets sys s ≡ (ok pair, t)
    → Offered true sys t.direct_tcp
direct_sockets-Offered sys s t pair h =
    let o : Outcome StunError (SocketAddr × Socket) =
      timed sys.in_time (get_external_ip sys.query) in
    let (first, u, port, port2, is, e, p1, p2, p3, last) = direct_sockets-parts sys s t pair h in
    let locals : List DirectHint = local_hints port port2 is in
    rw (← last) (
      first_socket-Answered sys o s u first locals e,
      (
        port,
        port2,
        is,
        p1,
        p2,
        p3,
        local_hints-Covers port port2 is (extend u.direct_tcp locals)
            (has_hint-extend u.direct_tcp locals),
      ),
    )
