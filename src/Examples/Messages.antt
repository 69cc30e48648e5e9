-- ===== src/Examples/Messages.antt =====
-- A message from one wormhole of src/core.rs to another, on concrete input.
use magic_wormhole_rs.Common.{
  ℕ, ◌≡◌, refl, List, [], ◌∷◌, ◌++◌, none, some, Bytes, ok, replicate, arith, bytes_eq, contains,
}
use magic_wormhole_rs.Common.Text.{codes}
use magic_wormhole_rs.Common.Decimal.{to_string}
use magic_wormhole_rs.Core.Json.{object, end}
use magic_wormhole_rs.Core.Names.{numeric}
use magic_wormhole_rs.Core.Messages.{EncryptedMessage, OutboundMessage, ack, add, message}
use magic_wormhole_rs.Core.Rendezvous.Wire
use magic_wormhole_rs.Core.Rendezvous.Wire.{Connection, WsEvent, text, send_text, read_event}
use magic_wormhole_rs.Core.Rendezvous.Receive
use magic_wormhole_rs.Core.Rendezvous.Machine
use magic_wormhole_rs.Core.Rendezvous.Machine.{MailboxMachine}
use magic_wormhole_rs.Core.Rendezvous.Server.{
  send_peer_message, next_peer_message, next_peer_message_some,
}
use magic_wormhole_rs.Core.Key.{encrypt_data}
use magic_wormhole_rs.Core.Wormhole.{Wormhole, send, receive}
use magic_wormhole_rs.Core.Wormhole.RoundTrip.{receive-send}
use magic_wormhole_rs.Examples.Crates.{toy, toy-IsSound}

abbrev pub wormhole : Bytes → List WsEvent → List OutboundMessage → List Bytes → ℕ → Wormhole
wormhole side events said phases n = record {
  server = record {
    connection = record { incoming = events; sent = said; send_faults = []; close_fault = none };
    state =
        some (record { nameplate = none; mailbox = codes "mb"; queue = []; processed = phases });
    side = side;
  };
  phase = n;
  key = replicate 32 3;
  appid = codes "app";
  verifier = [];
  peer_version = object end;
}

abbrev pub nonce : Bytes
nonce = replicate 24 1

abbrev sealed : Bytes
sealed = nonce ++ (replicate 16 0 ++ codes "hi")

abbrev relayed : EncryptedMessage
relayed = record { side = codes "a"; phase = codes "0"; body = sealed }

abbrev before : Wormhole
before = wormhole (codes "a") (text ack ∷ []) [] [] 0

abbrev after_send : Wormhole
after_send = wormhole (codes "a") [] (add (codes "0") sealed ∷ []) [] 1

abbrev peer : Wormhole
peer = wormhole (codes "b") (text (message relayed) ∷ []) [] [] 0

abbrev peer_after : Wormhole
peer_after = wormhole (codes "b") [] [] (codes "0" ∷ []) 0

sends : send toy nonce (codes "hi") before ≡ (ok tt, after_send)
unfolding send encrypt_data send_peer_message Receive.send_message send_text Receive.receive_ack
    Receive.read_loop numeric read_event to_string Receive.ack_round
sends = refl

hears : next_peer_message_some peer.server ≡ (ok relayed, peer_after.server)
unfolding next_peer_message_some bytes_eq next_peer_message Wire.receive_message
    Machine.receive_message contains
hears = refl

receive-send_example :
    receive toy peer ≡ (ok (codes "hi"), record peer { server = peer_after.server })
receive-send_example =
    receive-send toy toy-IsSound before after_send peer peer_after.server nonce (codes "hi") relayed
      refl (omega arith) sends refl refl refl hears
