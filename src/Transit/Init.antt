-- ===== src/Transit/Init.antt =====
-- `init` of src/transit.rs: the sockets and the hints of our side. What the system calls give is
-- input; `our_hints` is the state.
pub mod Steps
pub mod Offered
pub mod Safety
use magic_wormhole_rs.Common.{
  ℕ, List, Option, none, some, Bool, true, false, ◌⊎◌, inl, inr, Outcome, ok, err, panic, pending,
  Action, after, ◌>>=◌, ◌>>◌, return, fail, crash, expect, if◌then◌else◌,
}
use magic_wormhole_rs.Transit.Hints.{
  Ability, direct_tcp_v1, relay_v1, has, DirectHint, Hints, no_hints, insert, extend, RelayUrl,
  Interface, local_hints,
}
use magic_wormhole_rs.Transit.Socket.{IoError, Socket}
use magic_wormhole_rs.Transit.Stun.{StunError, timeout, SocketAddr, v4, v6, Query, get_external_ip}

-- What `init` asks of the system. A call whose result is unwrapped is false, or `none`, where it fails.
pub record System : Type 0 where
  pub query : Query
  -- Whether the STUN query ends within four seconds.
  pub in_time : Bool
  pub new_socket : Bool
  -- The error of `set_socket_opts`, if any.
  pub set_socket_opts : Option IoError
  pub bound : Bool
  -- `TcpListener::bind`
  pub listener : Option IoError
  pub local_port : Option ℕ ⊎ IoError
  pub listener_port : ℕ ⊎ IoError
  pub interfaces : List Interface ⊎ IoError

pub data MaybeConnectedSocket : Type 0 where
  socket : MaybeConnectedSocket
  stream : Socket → MaybeConnectedSocket

-- The listener is its port.
pub record TransitConnector : Type 0 where
  pub sockets : Option (MaybeConnectedSocket × ℕ)
  pub our_abilities : List Ability
  pub our_hints : Hints

-- `async_std::future::timeout`
unfoldable pub timed {ℓ} : {A : Type ℓ} → Bool → Outcome StunError A → Outcome StunError A
timed false o = err timeout
timed true pending = err timeout
timed true o = o

unfoldable pub hint_of : SocketAddr → DirectHint
hint_of (v4 h) = h
hint_of (v6 h) = h

-- `?` on a system call.
abbrev pub from_call {ℓ} : {A : Type ℓ} → A ⊎ IoError → Action Hints IoError A
from_call (inl a) = return a
from_call (inr e) = fail e

abbrev pub from_check : Option IoError → Action Hints IoError (Unit {0})
from_check none = return tt
from_check (some e) = fail e

-- `unwrap` on a system call.
abbrev pub unwrapped : Bool → Action Hints IoError (Unit {0})
unwrapped true = return tt
unwrapped false = crash

unfoldable pub insert_direct : DirectHint → Action Hints IoError (Unit {0})
unfolding insert
insert_direct h hints = (ok tt, record hints { direct_tcp = insert h hints.direct_tcp })

unfoldable pub extend_direct : List DirectHint → Action Hints IoError (Unit {0})
unfolding extend
extend_direct hs hints = (ok tt, record hints { direct_tcp = extend hints.direct_tcp hs })

module _ (sys : System) where
  -- A new socket, where the STUN query gave none.
  unfoldable pub fresh_socket : Action Hints IoError MaybeConnectedSocket
  fresh_socket = do
    unwrapped sys.new_socket
    from_check sys.set_socket_opts
    unwrapped sys.bound
    return socket

  -- The socket from what the STUN query ended with.
  unfoldable pub first_socket :
      Outcome StunError (SocketAddr × Socket) → Action Hints IoError MaybeConnectedSocket
  unfolding fresh_socket insert_direct hint_of
  first_socket (ok (external_ip, s)) = do insert_direct (hint_of external_ip); return (stream s)
  first_socket (err e) = fresh_socket
  first_socket panic = crash
  first_socket pending = λ hints. (pending, hints)

  unfoldable pub direct_sockets : Action Hints IoError (MaybeConnectedSocket × ℕ)
  unfolding first_socket timed get_external_ip extend_direct local_hints
  direct_sockets = do
    first ← first_socket (timed sys.in_time (get_external_ip sys.query))
    from_check sys.listener
    addr ← from_call sys.local_port
    port ← expect addr
    port2 ← from_call sys.listener_port
    found ← from_call sys.interfaces
    extend_direct (local_hints port port2 found)
    return (first, port2)

  unfoldable pub sockets_for :
      List Ability → Action Hints IoError (Option (MaybeConnectedSocket × ℕ))
  unfolding has direct_sockets
  sockets_for abilities =
      if has direct_tcp_v1 abilities
      then (λ hints. after (direct_sockets hints) λ pair. return (some pair))
      else return none

  -- The relay's hint, and the connector.
  unfoldable pub with_relay :
      List Ability
      → RelayUrl
      → Option (MaybeConnectedSocket × ℕ)
      → Action Hints IoError TransitConnector
  unfolding has insert
  with_relay abilities url listener hints =
      let with_url = insert (record { hostname = url.host; port = url.port }) hints.relay in
      let our_hints = if has relay_v1 abilities then record hints { relay = with_url } else hints in
      (
        ok (record { sockets = listener; our_abilities = abilities; our_hints = our_hints }),
        our_hints,
      )

  -- `init`
  unfoldable pub init : List Ability → RelayUrl → Outcome IoError TransitConnector
  unfolding sockets_for with_relay
  init abilities url = (after (sockets_for abilities no_hints) (with_relay abilities url)).0
