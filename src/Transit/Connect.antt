-- ===== src/Transit/Connect.antt =====
-- `TransitConnector` of src/transit.rs: the connections that a side tries, and which it takes. What
-- becomes of an attempt is the system's and the peer's doing: a run is the list of what the attempts
-- ended with, in the order of time.
use mathlib.Core.List.{map}
use magic_wormhole_rs.Common.{
  ℕ, ◌+◌, ◌*◌, ◌/◌, List, [], ◌∷◌, ◌++◌, Option, none, some, Bool, true, false, Outcome, ok, err,
  panic, pending, ◌&&◌, if◌then◌else◌, ltb, take,
}
use magic_wormhole_rs.Transit.Hints.{
  Ability, direct_tcp_v1, relay_v1, has, DirectHint, extend, Hints, HostType, direct, relay_host,
}
use magic_wormhole_rs.Transit.Socket.{IoError, Socket, write_all}
use magic_wormhole_rs.Transit.Record.{Transit}
use magic_wormhole_rs.Transit.Handshake.{go_msg}

-- `TransitConnectError`
pub data TransitConnectError : Type 0 where
  handshake : TransitConnectError
  io : IoError → TransitConnectError

-- One of the futures of `connect`.
pub data Attempt : Type 0 where
  dial : DirectHint → Attempt
  dial_relay : DirectHint → Attempt
  listen : Attempt

unfoldable pub dials : Bool → Hints → List Attempt
dials true their_hints = map dial (take 10 their_hints.direct_tcp)
dials false their_hints = []

unfoldable pub relays : Bool → Hints → Hints → List Attempt
unfolding extend
relays true our_hints their_hints =
    map dial_relay (extend (extend [] (take 2 our_hints.relay)) (take 2 their_hints.relay))
relays false our_hints their_hints = []

unfoldable pub listens : Bool → List Attempt
listens true = listen ∷ []
listens false = []

-- `TransitConnector::connect`: the attempts, `own_socket` telling whether there are sockets. `none`
-- is the panic of its assertion.
unfoldable pub connect : Bool → List Ability → Hints → List Ability → Hints → Option (List Attempt)
unfolding dials relays listens has
connect own_socket our_abilities our_hints their_abilities their_hints =
    let attempts =
      dials own_socket their_hints
      ++ (relays (has relay_v1 our_abilities && has relay_v1 their_abilities) our_hints their_hints
          ++ listens own_socket) in
    if own_socket
    then (if has direct_tcp_v1 our_abilities then some attempts else none)
    else (if has direct_tcp_v1 our_abilities then none else some attempts)

-- The end of an attempt: when, in milliseconds from the start, and the connection, if it succeeded.
pub record Ended : Type 0 where
  pub at : ℕ
  pub result : Option (Transit × HostType)

-- The first connection that is made by `limit`, and what ends after it.
unfoldable pub next_connection : ℕ → List Ended → Option ((ℕ × Transit × HostType) × List Ended)
next_connection limit [] = none
next_connection limit (e ∷ es) =
    let rest = next_connection limit es in
    if ltb limit e.at
    then none
    else elim e.result [ none ↦ rest | some (t, h) ↦ some ((e.at, t, h), es) ]

-- The loop that waits for a direct connection.
unfoldable pub next_direct : ℕ → List Ended → Option Transit
next_direct limit [] = none
next_direct limit (e ∷ es) =
    let rest = next_direct limit es in
    if ltb limit e.at
    then none
    else elim e.result [ none ↦ rest | some (t, direct) ↦ some t | some (t, relay_host) ↦ rest ]

-- How long the leader looks for a better connection; `elapsed` is in milliseconds.
unfoldable pub to_wait : ℕ → ℕ
to_wait elapsed = if ltb 5 (elapsed / 1000) then 1000 else elapsed * 3 / 10

or_direct : Transit → Option Transit → Transit
or_direct transit none = transit
or_direct transit (some better) = better

-- The connection that the leader keeps.
unfoldable pub prefer : List Ability → (ℕ × Transit × HostType) × List Ended → Transit
unfolding has next_direct to_wait or_direct
prefer our_abilities ((elapsed, transit, direct), later) = transit
prefer our_abilities ((elapsed, transit, relay_host), later) =
    if has direct_tcp_v1 our_abilities
    then or_direct transit (next_direct (elapsed + to_wait elapsed) later)
    else transit

go_sent :
    Transit → Outcome TransitConnectError (Unit {0}) × Socket → Outcome TransitConnectError Transit
go_sent transit (ok _, s) = ok (record transit { socket = s })
go_sent transit (err e, s) = err e
go_sent transit (panic, s) = panic
go_sent transit (pending, s) = pending

go : Transit → Outcome TransitConnectError Transit
unfolding go_sent
go transit = go_sent transit (write_all io go_msg transit.socket)

-- `leader_connect` on what the attempts of `connect` end with.
unfoldable pub leader_connect : List Ability → List Ended → Outcome TransitConnectError Transit
unfolding next_connection prefer go
leader_connect our_abilities attempts = elim (next_connection 60000 attempts) [
  | none ↦ err handshake
  | some first ↦ go (prefer our_abilities first)
]

-- `follower_connect`
unfoldable pub follower_connect : List Ended → Outcome TransitConnectError Transit
unfolding next_connection
follower_connect attempts = elim (next_connection 60000 attempts) [
  | none ↦ err handshake
  | some ((elapsed, transit, host_type), later) ↦ ok transit
]
