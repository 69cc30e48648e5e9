-- ===== src/Examples/Connections.antt =====
-- The transit of src/transit.rs on concrete input.
use magic_wormhole_rs.Common.{
  ℕ, ◌+◌, ◌≡◌, refl, List, [], ◌∷◌, ◌++◌, none, some, true, false, Bytes, ok, replicate, arith, All,
  ◌⊎◌,
}
use magic_wormhole_rs.Common.Text.{codes}
use magic_wormhole_rs.Transit.Hints.{
  all_abilities, direct, relay_host, has, ability_eq, direct_tcp_v1, DirectHint, Hints,
}
use magic_wormhole_rs.Transit.Socket.{Socket, write_all, to_be_bytes}
use magic_wormhole_rs.Transit.Record.{
  Pipe, Transit, zero_nonce, send_all, receive_all, send_record_inner,
}
use magic_wormhole_rs.Transit.Records.{receive_all-send_all}
use magic_wormhole_rs.Transit.Replay.{Accepted, receive_record_inner-Accepted}
use magic_wormhole_rs.Transit.Socket.{from_be_bytes, read_exact, read_up_to}
use magic_wormhole_rs.Transit.Record.{receive_record_inner}
use magic_wormhole_rs.Common.{◌⊎◌, bytes_eq}
use magic_wormhole_rs.Transit.Handshake.{handshake_exchange, established, follower_msg, ok_msg}
use magic_wormhole_rs.Transit.Agreement.{
  relay_reply, relay_part, expected, greeting, handshake_exchange-completes,
  handshake_exchange-Heard,
}
use magic_wormhole_rs.Transit.Connect.{Ended, prefer, to_wait}
use magic_wormhole_rs.Transit.Choice.{Ordered, IsDirectBy, Any, Gives, prefer-Direct}
use magic_wormhole_rs.Util.Counter.{sodium_increment_be, increment_loop}
use magic_wormhole_rs.Examples.Crates.{toy, toy-IsSound}

abbrev socket : Bytes → Bytes → Socket
socket input output = record { input = input; ended = false; output = output; writable = true }

abbrev nonce_at : ℕ → Bytes
nonce_at n = replicate 23 0 ++ (n ∷ [])

abbrev plain : List Bytes
plain = (1 ∷ []) ∷ [] ∷ []

abbrev framed : Bytes
framed =
    (0 ∷ 0 ∷ 0 ∷ 41 ∷ [])
    ++ (nonce_at 0 ++ (replicate 16 0 ++ (1 ∷ [])))
    ++ ((0 ∷ 0 ∷ 0 ∷ 40 ∷ []) ++ (nonce_at 1 ++ replicate 16 0))

abbrev pipe : Bytes → Bytes → ℕ → Pipe
pipe input output n = record { socket = socket input output; nonce = nonce_at n }

sends : send_all toy [] plain (pipe [] [] 0) ≡ (ok tt, pipe [] framed 2)
unfolding send_all write_all to_be_bytes sodium_increment_be increment_loop send_record_inner
sends = refl

receive_all-send_all_example :
    receive_all toy [] 2 (pipe (framed ++ (7 ∷ [])) [] 0) ≡ (ok plain, pipe (7 ∷ []) [] 2)
receive_all-send_all_example =
    receive_all-send_all toy toy-IsSound [] plain (pipe [] [] 0) (pipe [] framed 2)
      (pipe (framed ++ (7 ∷ [])) [] 0) framed (7 ∷ []) refl (omega arith, (omega arith, tt)) sends
      refl refl refl

abbrev key : Bytes
key = replicate 32 5

abbrev heard : Socket
heard = socket (ok_msg ++ (follower_msg toy key ++ (9 ∷ []))) []

abbrev shaken : Socket
shaken =
    socket (9 ∷ []) (([] ++ relay_part toy key (codes "ab") relay_host) ++ greeting toy key true)

handshake_exchange-completes_example :
    handshake_exchange toy key true (codes "ab") relay_host heard
    ≡ (ok (established toy key true shaken), shaken)
handshake_exchange-completes_example =
    handshake_exchange-completes toy toy-IsSound key true (codes "ab") (9 ∷ []) relay_host heard
      refl refl

handshake_exchange-Heard_example :
    (heard.input
      ≡ relay_reply relay_host
        ++ (expected toy key true ++ (established toy key true shaken).socket.input))
    × (established toy key true shaken ≡ established toy key true shaken)
handshake_exchange-Heard_example =
    handshake_exchange-Heard toy toy-IsSound key true (codes "ab") relay_host heard shaken
      (established toy key true shaken)
      (handshake_exchange-completes toy toy-IsSound key true (codes "ab") (9 ∷ []) relay_host heard
        refl refl)

abbrev connection : Bytes → Transit
connection k = record {
  socket = socket [] [];
  skey = k;
  rkey = k;
  snonce = zero_nonce;
  rnonce = zero_nonce;
}

abbrev later : List Ended
later =
    record { at = 1100; result = none }
    ∷ record { at = 1200; result = some (connection (1 ∷ []), direct) }
    ∷ []

able : has direct_tcp_v1 all_abilities ≡ true
unfolding has ability_eq all_abilities
able = refl

in_order : Ordered 1000 later
unfolding Ordered
in_order = (omega arith, (omega arith, tt))

prefer-Direct_example :
    ((prefer all_abilities ((1000, connection [], relay_host), later) ≡ connection [])
      × All (λ e. ¬ IsDirectBy (1000 + to_wait 1000) e) later)
    ⊎ Any
        (Gives
          (1000 + to_wait 1000)
          (prefer all_abilities ((1000, connection [], relay_host), later)))
        later
prefer-Direct_example = prefer-Direct all_abilities (connection []) 1000 later able in_order

abbrev one_left : Bytes
one_left = (0 ∷ 0 ∷ 0 ∷ 40 ∷ []) ++ (nonce_at 1 ++ replicate 16 0)

receives : receive_record_inner toy [] (pipe framed [] 0) ≡ (ok (1 ∷ []), pipe one_left [] 1)
unfolding receive_record_inner read_exact read_up_to from_be_bytes bytes_eq sodium_increment_be
    increment_loop
receives = refl

receive_record_inner-Accepted_example :
    Accepted toy [] (pipe framed [] 0) (1 ∷ []) (pipe one_left [] 1)
receive_record_inner-Accepted_example =
    receive_record_inner-Accepted toy [] (pipe framed [] 0) (pipe one_left [] 1) (1 ∷ []) receives

abbrev hints_of : DirectHint → DirectHint → Hints
hints_of h relay = record { direct_tcp = h ∷ []; relay = relay ∷ [] }

abbrev near : Hints
near =
    hints_of (record { hostname = codes "a"; port = 1 })
      (record { hostname = codes "relay"; port = 4001 })

abbrev far : Hints
far =
    hints_of (record { hostname = codes "b"; port = 2 })
      (record { hostname = codes "relay"; port = 4001 })
