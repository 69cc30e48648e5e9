-- ===== src/Examples/Sockets.antt =====
-- `init` on a machine with one address, where the STUN server is not found.
use magic_wormhole_rs.Common.{
  ℕ, ◌≡◌, ◌≢◌, refl, [], ◌∷◌, Option, none, some, true, false, inl, inr, ok, err, panic,
}
use magic_wormhole_rs.Common.Text.{codes}
use magic_wormhole_rs.Transit.Hints.{
  Ability, DirectHint, Hints, no_hints, RelayUrl, Interface, all_abilities, insert, extend,
  local_hints,
}
use magic_wormhole_rs.Transit.Socket.{not_found}
use magic_wormhole_rs.Transit.Stun.{Query, get_external_ip}
use magic_wormhole_rs.Transit.Connect.{dial}
use magic_wormhole_rs.Transit.Init.{System, socket, TransitConnector, init}
use magic_wormhole_rs.Transit.Init.Safety.{Offers, Works, init-Offers, init-completes}

abbrev query : Query
query = record {
  server = inr not_found;
  to_ipv6_mapped = λ h. h;
  dial = λ h. inr not_found;
  binding_request = none;
  decode = λ b. none;
}

abbrev machine : System
machine = record {
  query = query;
  in_time = true;
  new_socket = true;
  set_socket_opts = none;
  bound = true;
  listener = none;
  local_port = inl (some 4001);
  listener_port = inl 4002;
  interfaces = inl (
      record { address = codes "127.0.0.1"; is_loopback = true }
      ∷ record { address = codes "10.0.0.7"; is_loopback = false }
      ∷ []);
}

abbrev url : RelayUrl
url = record { host = codes "relay"; port = 4001 }

abbrev hint : ℕ → DirectHint
hint port = record { hostname = codes "10.0.0.7"; port = port }

abbrev ready : TransitConnector
ready = record {
  sockets = some (socket, 4002);
  our_abilities = all_abilities;
  our_hints = record {
    direct_tcp = hint 4001 ∷ hint 4002 ∷ [];
    relay = record { hostname = codes "relay"; port = 4001 } ∷ [];
  };
}

starts : init machine all_abilities url ≡ ok ready
unfolding init all_abilities magic_wormhole_rs.Transit.Hints.has_hint
    magic_wormhole_rs.Transit.Hints.hint_eq magic_wormhole_rs.Common.bytes_eq
starts = refl

init-Offers_example : Offers machine all_abilities url ready
init-Offers_example = init-Offers machine all_abilities url ready starts

abbrev peer_hint : DirectHint
peer_hint = record { hostname = codes "10.0.0.2"; port = 4003 }

abbrev peer_hints : Hints
peer_hints = record { direct_tcp = peer_hint ∷ []; relay = [] }

no_answer : get_external_ip query ≢ panic
unfolding get_external_ip
no_answer h = cc

working : Works machine
working = record {
  new_socket_works = refl;
  options_set = refl;
  bind_works = refl;
  listens = refl;
  port = 4001;
  has_port = refl;
  port2 = 4002;
  has_port2 = refl;
  found = _;
  has_interfaces = refl;
  no_panic = no_answer;
}

init-completes_example : (c : TransitConnector) × (init machine all_abilities url ≡ ok c)
init-completes_example = init-completes machine all_abilities url working
