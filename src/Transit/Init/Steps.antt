-- ===== src/Transit/Init/Steps.antt =====
-- What each step of `init` adds to the hints.
use magic_wormhole_rs.Common.{
  ℕ, ◌≡◌, refl, ap, ◌∙◌, List, [], ◌∷◌, Option, none, some, Bool, true, false, ◌⊎◌, inl, inr,
  Outcome, ok, err, panic, pending, after-eq-ok, expect-ok, All, if◌then◌else◌,
}
use magic_wormhole_rs.Transit.Hints.{DirectHint, Hints, insert, extend, Interface, local_hints}
use magic_wormhole_rs.Transit.Socket.{IoError, Socket}
use magic_wormhole_rs.Transit.Stun.{StunError, SocketAddr, get_external_ip}
use magic_wormhole_rs.Transit.Attempts.{All-imply, insert-All, extend-All}
use magic_wormhole_rs.Transit.Init.{
  System, MaybeConnectedSocket, timed, hint_of, from_call, from_check, unwrapped, insert_direct,
  extend_direct, fresh_socket, first_socket, direct_sockets,
}

-- A hint of a network interface that is not the loopback, on one of two ports.
abbrev pub IsLocal : ℕ → ℕ → List Interface → DirectHint → Type 0
IsLocal port port2 [] h = ⊥
IsLocal port port2 (i ∷ is) h =
    ((i.is_loopback ≡ false) × (h.hostname ≡ i.address) × ((h.port ≡ port) ⊎ (h.port ≡ port2)))
    ⊎ IsLocal port port2 is h

-- A direct hint is the address that the STUN server gave in time, or one of an interface, on the port
-- of our socket or of our listener.
abbrev pub Known : System → DirectHint → Type 0
Known sys h =
    ((addr : SocketAddr) × (s : Socket) × (timed sys.in_time (get_external_ip sys.query)
        ≡ ok (addr, s))
      × (h ≡ hint_of addr))
    ⊎ ((port : ℕ) × (port2 : ℕ) × (is : List Interface) × (sys.local_port ≡ inl (some port))
        × (sys.listener_port ≡ inl port2)
        × (sys.interfaces ≡ inl is)
        × IsLocal port port2 is h)

abbrev pub is_some {ℓ} : {A : Type ℓ} → Option A → Bool
is_some none = false
is_some (some a) = true

unless-All :
    (P : DirectHint → Type 0) (b : Bool) (x y : DirectHint) (rest : List DirectHint)
    → (b ≡ false → P x × P y)
    → All P rest
    → All P (if b then rest else x ∷ y ∷ rest)
unless-All P true x y rest both all = all
unless-All P false x y rest both all = let (p, q) = both refl in (p, (q, all))

local_hints-IsLocal :
    (port port2 : ℕ) (is : List Interface) → All (IsLocal port port2 is) (local_hints port port2 is)
unfolding local_hints
local_hints-IsLocal port port2 [] = tt
local_hints-IsLocal port port2 (i ∷ is) =
    unless-All (IsLocal port port2 (i ∷ is)) i.is_loopback _ _ (local_hints port port2 is)
      (λ e. (inl (e, refl, inl refl), inl (e, refl, inr refl)))
      (All-imply (λ h k. inr k) (local_hints port port2 is) (local_hints-IsLocal port port2 is))

unwrapped-keeps : (b : Bool) (s t : Hints) (a : Unit {0}) → unwrapped b s ≡ (ok a, t) → s ≡ t
unwrapped-keeps true s t a h = ap (λ r. r.1) h
unwrapped-keeps false s t a h = cc

from_check-keeps :
    (o : Option IoError) (s t : Hints) (a : Unit {0}) → from_check o s ≡ (ok a, t) → s ≡ t
from_check-keeps none s t a h = ap (λ r. r.1) h
from_check-keeps (some e) s t a h = cc

from_call-ok :
    {A : Type 0} (x : A ⊎ IoError) (s t : Hints) (a : A)
    → from_call x s ≡ (ok a, t)
    → (x ≡ inl a) × (s ≡ t)
from_call-ok (inl b) s t a h = (cc h, ap (λ r. r.1) h)
from_call-ok (inr e) s t a h = cc

fresh_socket-keeps :
    (sys : System) (s t : Hints) (m : MaybeConnectedSocket) → fresh_socket sys s ≡ (ok m, t) → s ≡ t
unfolding fresh_socket
fresh_socket-keeps sys s t m h =
    let (a, s1, e1, f1) = after-eq-ok (unwrapped sys.new_socket s) _ h in
    let (b, s2, e2, f2) = after-eq-ok (from_check sys.set_socket_opts s1) _ f1 in
    let (d, s3, e3, f3) = after-eq-ok (unwrapped sys.bound s2) _ f2 in
    unwrapped-keeps sys.new_socket s s1 a e1
    ∙ from_check-keeps sys.set_socket_opts s1 s2 b e2
    ∙ unwrapped-keeps sys.bound s2 s3 d e3
    ∙ ap (λ r. r.1) f3

-- The first socket brings at most the hint of the STUN answer.
first_socket-Known :
    (sys : System) (P : DirectHint → Type 0) (o : Outcome StunError (SocketAddr × Socket))
    (s t : Hints) (m : MaybeConnectedSocket)
    → first_socket sys o s ≡ (ok m, t)
    → ((addr : SocketAddr) (c : Socket) → o ≡ ok (addr, c) → P (hint_of addr))
    → All P s.direct_tcp
    → All P t.direct_tcp × (t.relay ≡ s.relay)
unfolding first_socket insert_direct
first_socket-Known sys P (ok (addr, c)) s t m h known all =
    let e : record s { direct_tcp = insert (hint_of addr) s.direct_tcp } ≡ t = ap (λ r. r.1) h in
    rw (← e) (insert-All P (hint_of addr) s.direct_tcp (known addr c refl) all, refl)
first_socket-Known sys P (err x) s t m h known all =
    let e : s ≡ t = fresh_socket-keeps sys s t m h in rw (← e) (all, refl)
first_socket-Known sys P panic s t m h known all = cc
first_socket-Known sys P pending s t m h known all = cc

-- The parts of a run of `direct_sockets` that ends well.
pub direct_sockets-parts :
    (sys : System) (s t : Hints) (pair : MaybeConnectedSocket × ℕ)
    → direct_sockets sys s ≡ (ok pair, t)
    → (first : MaybeConnectedSocket) × (u : Hints) × (port : ℕ) × (port2 : ℕ) × (is : List
        Interface)
      × (first_socket sys (timed sys.in_time (get_external_ip sys.query)) s ≡ (ok first, u))
      × (sys.local_port ≡ inl (some port))
      × (sys.listener_port ≡ inl port2)
      × (sys.interfaces ≡ inl is)
      × (record u { direct_tcp = extend u.direct_tcp (local_hints port port2 is) } ≡ t)
unfolding direct_sockets extend_direct
direct_sockets-parts sys s t pair h =
    let o : Outcome StunError (SocketAddr × Socket) =
      timed sys.in_time (get_external_ip sys.query) in
    let (first, s1, e1, f1) = after-eq-ok (first_socket sys o s) _ h in
    let (a, s2, e2, f2) = after-eq-ok (from_check sys.listener s1) _ f1 in
    let (addr, s3, e3, f3) = after-eq-ok (from_call sys.local_port s2) _ f2 in
    let (port, e4, f4) = expect-ok addr _ s3 t pair f3 in
    let (port2, s5, e5, f5) = after-eq-ok (from_call sys.listener_port s3) _ f4 in
    let (is, s6, e6, f6) = after-eq-ok (from_call sys.interfaces s5) _ f5 in
    let (p1, k3) = from_call-ok sys.local_port s2 s3 addr e3 in
    let (p2, k5) = from_call-ok sys.listener_port s3 s5 port2 e5 in
    let (p3, k6) = from_call-ok sys.interfaces s5 s6 is e6 in
    let same : s1 ≡ s6 = from_check-keeps sys.listener s1 s2 a e2 ∙ k3 ∙ k5 ∙ k6 in
    let grown : Hints → Hints =
      λ x. record x { direct_tcp = extend x.direct_tcp (local_hints port port2 is) } in
    (first, s1, port, port2, is, e1, p1 ∙ ap inl e4, p2, p3, ap grown same ∙ ap (λ r. r.1) f6)

pub direct_sockets-Known :
    (sys : System) (s t : Hints) (pair : MaybeConnectedSocket × ℕ)
    → direct_sockets sys s ≡ (ok pair, t)
    → All (Known sys) s.direct_tcp
    → All (Known sys) t.direct_tcp × (t.relay ≡ s.relay)
direct_sockets-Known sys s t pair h all =
    let o : Outcome StunError (SocketAddr × Socket) =
      timed sys.in_time (get_external_ip sys.query) in
    let (first, u, port, port2, is, e, p1, p2, p3, last) = direct_sockets-parts sys s t pair h in
    let (known, relay) =
      first_socket-Known sys (Known sys) o s u first e (λ x c k. inl (x, c, k, refl)) all in
    let locals : All (Known sys) (local_hints port port2 is) =
      All-imply (λ x k. inr (port, port2, is, p1, p2, p3, k)) (local_hints port port2 is)
        (local_hints-IsLocal port port2 is) in
    rw (← last)
      (extend-All (Known sys) u.direct_tcp (local_hints port port2 is) known locals, relay)
