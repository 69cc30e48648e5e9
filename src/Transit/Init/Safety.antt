-- ===== src/Transit/Init/Safety.antt =====
-- What `init` offers to the peer, and what it leaves for `connect`.
use magic_wormhole_rs.Common.{
  ℕ, ◌≡◌, ◌≢◌, refl, sym, ap, ◌∙◌, List, [], ◌∷◌, Option, none, some, Bool, true, false, inl, inr,
  Outcome, ok, err, panic, pending, after, after-eq-ok, return, All, Bool-cases, if◌then◌else◌,
}
use magic_wormhole_rs.Transit.Hints.{
  Ability, direct_tcp_v1, relay_v1, has, DirectHint, Hints, no_hints, insert, extend, RelayUrl,
  Interface, local_hints, has_hint,
}
use magic_wormhole_rs.Transit.Socket.{IoError, Socket}
use magic_wormhole_rs.Transit.Stun.{StunError, SocketAddr, get_external_ip}
use magic_wormhole_rs.Transit.Connect.{listens}
use magic_wormhole_rs.Transit.Attempts.{All-imply}
use magic_wormhole_rs.Transit.Init.Offered.{Offered, direct_sockets-Offered}
use magic_wormhole_rs.Transit.Init.Steps.{Known, is_some, direct_sockets-Known}
use magic_wormhole_rs.Transit.Init.{
  System, MaybeConnectedSocket, socket, stream, TransitConnector, timed, insert_direct,
  extend_direct, fresh_socket, first_socket, direct_sockets, sockets_for, with_relay, init,
}

-- What `init` promises of a connector: its abilities, its sockets and its hints.
pub record Offers (sys : System) (abilities : List Ability) (url : RelayUrl) (c : TransitConnector)
    : Type 0 where
  pub abilities_kept : c.our_abilities ≡ abilities
  pub sockets_if : is_some c.sockets ≡ has direct_tcp_v1 abilities
  pub direct_known :
      All (λ h. (has direct_tcp_v1 abilities ≡ true) × Known sys h) c.our_hints.direct_tcp
  pub direct_offered : Offered (has direct_tcp_v1 abilities) sys c.our_hints.direct_tcp
  pub relay_hint : c.our_hints.relay ≡ (
      if has relay_v1 abilities then record { hostname = url.host; port = url.port } ∷ [] else [])

sockets_for-Known :
    (sys : System) (abilities : List Ability) (t : Hints) (o : Option (MaybeConnectedSocket × ℕ))
    → sockets_for sys abilities no_hints ≡ (ok o, t)
    → (is_some o ≡ has direct_tcp_v1 abilities)
      × All (λ h. (has direct_tcp_v1 abilities ≡ true) × Known sys h) t.direct_tcp
      × Offered (has direct_tcp_v1 abilities) sys t.direct_tcp
      × (t.relay ≡ [])
unfolding sockets_for
sockets_for-Known sys abilities t o h = elim (Bool-cases (has direct_tcp_v1 abilities)) [
  | inl able ↦
      let h' : after (direct_sockets sys no_hints) (λ pair. return (some pair)) ≡ (ok o, t) =
        rw able at h in
      let (pair, s, e, f) = after-eq-ok (direct_sockets sys no_hints) _ h' in
      let same : s ≡ t = ap (λ r. r.1) f in
      let found : ok (some pair) ≡ ok o = ap (λ r. r.0) f in
      let is_pair : some pair ≡ o = cc found in
      let (known, relay) = direct_sockets-Known sys no_hints s pair e tt in
      (
        ap is_some (sym is_pair) ∙ sym able,
        rw (← same) (All-imply (λ x k. (able, k)) s.direct_tcp known),
        rw (able, ← same) (direct_sockets-Offered sys no_hints s pair e),
        rw (← same) relay,
      )
  | inr unable ↦
      let h' : Path (Outcome IoError (Option (MaybeConnectedSocket × ℕ)) × Hints)
          (ok none, no_hints) (ok o, t) =
        rw unable at h in
      let same : no_hints ≡ t = ap (λ r. r.1) h' in
      let found : ok none ≡ ok o = ap (λ r. r.0) h' in
      let is_none : none ≡ o = cc found in
      (
        ap is_some (sym is_none) ∙ sym unable,
        rw (← same) tt,
        rw (unable, ← same) refl,
        rw (← same) refl,
      )
]

abbrev connector :
    List Ability → Option (MaybeConnectedSocket × ℕ) → Hints → List DirectHint → TransitConnector
connector abilities o t relay = record {
  sockets = o;
  our_abilities = abilities;
  our_hints = record { direct_tcp = t.direct_tcp; relay = relay };
}

-- The relay's hint is added where nothing was.
with_relay-hint :
    (sys : System) (abilities : List Ability) (url : RelayUrl)
    (o : Option (MaybeConnectedSocket × ℕ)) (t u : Hints) (c : TransitConnector)
    → with_relay sys abilities url o t ≡ (ok c, u)
    → t.relay ≡ []
    → (c.our_abilities ≡ abilities)
      × (c.sockets ≡ o)
      × (c.our_hints.direct_tcp ≡ t.direct_tcp)
      × (c.our_hints.relay ≡ (
          if has relay_v1 abilities
          then record { hostname = url.host; port = url.port } ∷ []
          else []))
unfolding with_relay insert has_hint
with_relay-hint sys abilities url o t u c h empty = elim (Bool-cases (has relay_v1 abilities)) [
  | inl able ↦
      let ended = ap (λ r. r.0) (rw (able, empty) at h) in
      let made : connector abilities o t (record { hostname = url.host; port = url.port } ∷ [])
          ≡ c =
        cc ended in
      rw (← made, able) (refl, refl, refl, refl)
  | inr unable ↦
      let ended = ap (λ r. r.0) (rw (unable, empty) at h) in
      let made : connector abilities o t [] ≡ c = cc ended in
      rw (← made, unable) (refl, refl, refl, refl)
]

-- If `init` ends well, the connector has our abilities, and sockets exactly with the direct ability.
-- Without that ability it offers no direct hint; with it, the direct hints are the address from the
-- STUN server, if it answered in time, and those of all interfaces that are no loopback, on the ports
-- of both sockets, and no others. It offers the relay exactly with the relay ability.
pub init-Offers :
    (sys : System) (abilities : List Ability) (url : RelayUrl) (c : TransitConnector)
    → init sys abilities url ≡ ok c
    → Offers sys abilities url c
unfolding init with_relay insert has_hint
init-Offers sys abilities url c h =
    let r : Outcome IoError TransitConnector × Hints =
      after (sockets_for sys abilities no_hints) (with_relay sys abilities url) in
    let (o, t, e, f) =
      after-eq-ok (sockets_for sys abilities no_hints) (with_relay sys abilities url)
        (λ j. (h j, r.1)) in
    let (some_if, known, offered, empty) = sockets_for-Known sys abilities t o e in
    let (a, s, d, relay) = with_relay-hint sys abilities url o t r.1 c f empty in
    record {
      abilities_kept = a;
      sockets_if = ap is_some s ∙ some_if;
      direct_known = rw d known;
      direct_offered = rw d offered;
      relay_hint = relay;
    }

-- Where the system calls succeed, and the STUN query, answered in time or not, does not panic.
pub record Works (sys : System) : Type 0 where
  pub new_socket_works : sys.new_socket ≡ true
  pub options_set : sys.set_socket_opts ≡ none
  pub bind_works : sys.bound ≡ true
  pub listens : sys.listener ≡ none
  pub port : ℕ
  pub has_port : sys.local_port ≡ inl (some port)
  pub port2 : ℕ
  pub has_port2 : sys.listener_port ≡ inl port2
  pub found : List Interface
  pub has_interfaces : sys.interfaces ≡ inl found
  pub no_panic : get_external_ip sys.query ≢ panic

fresh_socket-completes :
    (sys : System) (hints : Hints) → Works sys → fresh_socket sys hints ≡ (ok socket, hints)
unfolding fresh_socket
fresh_socket-completes sys hints w = rw (w.new_socket_works, w.options_set, w.bind_works) refl

first_socket-completes :
    (sys : System) (b : Bool) (o : Outcome StunError (SocketAddr × Socket)) (hints : Hints)
    → Works sys
    → o ≢ panic
    → (m : MaybeConnectedSocket) × (t : Hints) × (first_socket sys (timed b o) hints ≡ (ok m, t))
unfolding first_socket timed insert_direct
first_socket-completes sys false o hints w n = (socket, hints, fresh_socket-completes sys hints w)
first_socket-completes sys true (ok (addr, c)) hints w n = (stream c, _, refl)
first_socket-completes sys true (err e) hints w n =
    (socket, hints, fresh_socket-completes sys hints w)
first_socket-completes sys true panic hints w n = absurd (n refl)
first_socket-completes sys true pending hints w n =
    (socket, hints, fresh_socket-completes sys hints w)

sockets_for-completes :
    (sys : System) (abilities : List Ability)
    → Works sys
    → (o : Option (MaybeConnectedSocket × ℕ)) × (t : Hints) × (sockets_for sys abilities no_hints
        ≡ (ok o, t))
unfolding sockets_for direct_sockets extend_direct
sockets_for-completes sys abilities w =
    let (m, t, e) =
      first_socket-completes sys sys.in_time (get_external_ip sys.query) no_hints w w.no_panic in
    elim (Bool-cases (has direct_tcp_v1 abilities)) [
      | inl able ↦ (
        some (m, w.port2),
        record t { direct_tcp = extend t.direct_tcp (local_hints w.port w.port2 w.found) },
        rw (able, e, w.listens, w.has_port, w.has_port2, w.has_interfaces) refl,
      )
      | inr unable ↦ (none, no_hints, rw unable refl)
    ]

with_relay-completes :
    (sys : System) (abilities : List Ability) (url : RelayUrl)
    (o : Option (MaybeConnectedSocket × ℕ)) (t : Hints)
    → (c : TransitConnector) × ((with_relay sys abilities url o t).0 ≡ ok c)
unfolding with_relay
with_relay-completes sys abilities url o t = (_, refl)

-- If the system calls succeed, `init` ends well, whether or not the STUN server gives an answer in
-- time, as long as the query does not panic.
pub init-completes :
    (sys : System) (abilities : List Ability) (url : RelayUrl)
    → Works sys
    → (c : TransitConnector) × (init sys abilities url ≡ ok c)
unfolding init
init-completes sys abilities url w =
    let (o, t, e) = sockets_for-completes sys abilities w in
    let (c, f) = with_relay-completes sys abilities url o t in (c, rw (init, e) f)
