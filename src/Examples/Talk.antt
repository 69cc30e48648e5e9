-- ===== src/Examples/Talk.antt =====
-- A message of the transfer from one session to another, on concrete input.
use magic_wormhole_rs.Common.{
  ℕ, ◌≡◌, refl, [], ◌∷◌, ◌++◌, none, Bytes, Outcome, ok, err, replicate, arith, bytes_eq, contains,
}
use magic_wormhole_rs.Common.Text.{codes}
use magic_wormhole_rs.Common.Decimal.{to_string}
use magic_wormhole_rs.Core.Json.{string}
use magic_wormhole_rs.Core.Names.{numeric}
use magic_wormhole_rs.Core.Messages.{EncryptedMessage, ack, add, message}
use magic_wormhole_rs.Core.Rendezvous.Wire
use magic_wormhole_rs.Core.Rendezvous.Wire.{text, send_text, read_event}
use magic_wormhole_rs.Core.Rendezvous.Receive
use magic_wormhole_rs.Core.Rendezvous.Machine
use magic_wormhole_rs.Core.Rendezvous.Server.{
  send_peer_message, next_peer_message, next_peer_message_some,
}
use magic_wormhole_rs.Core.Key.{encrypt_data}
use magic_wormhole_rs.Core.Wormhole.{Wormhole, send}
use magic_wormhole_rs.Transit.Hints.{no_hints}
use magic_wormhole_rs.Transfer.Messages.{
  TransferError, unsupported_offer, peer_error, PeerMessage, new_error_message,
}
use magic_wormhole_rs.Transfer.Messages.Encoding.{variant}
use magic_wormhole_rs.Transfer.Session.{
  Session, Env, send_plaintext, tell, hear, Peer, complain, receive_transit,
}
use magic_wormhole_rs.Transfer.Session.PeerText.{peer_codec}
use magic_wormhole_rs.Transfer.Session.RoundTrip.{hear-tell, receive_transit-complain}
use magic_wormhole_rs.Examples.Crates.{toy, toy-IsSound}
use magic_wormhole_rs.Examples.JsonText.{toy_text, toy_text-IsFaithful}
use magic_wormhole_rs.Examples.Messages.{wormhole, nonce}

abbrev env : Env
env = record {
  json = peer_codec toy_text;
  ack_json = record { to_vec = λ a. a.sha256; from_slice = λ b. none };
  display = λ e. codes "hi";
  display_transit = λ e. [];
  attempts = λ key abilities hints. [];
  our_hints = no_hints;
}

abbrev told : PeerMessage
told = new_error_message (codes "hi")

abbrev told_text : Bytes
told_text = toy_text.print (variant (codes "error") (string (codes "hi")))

abbrev sealed : Bytes
sealed = nonce ++ (replicate 16 0 ++ told_text)

abbrev relayed : EncryptedMessage
relayed = record { side = codes "a"; phase = codes "0"; body = sealed }

abbrev session : Wormhole → ℕ → Session
session w n = record { wormhole = w; nonces = λ i. nonce; drawn = n }

abbrev before : Session
before = session (wormhole (codes "a") (text ack ∷ []) [] [] 0) 0

abbrev after_tell : Session
after_tell = session (wormhole (codes "a") [] (add (codes "0") sealed ∷ []) [] 1) 1

abbrev peer : Session
peer = session (wormhole (codes "b") (text (message relayed) ∷ []) [] [] 0) 0

abbrev peer_after : Wormhole
peer_after = wormhole (codes "b") [] [] (codes "0" ∷ []) 0

tells : tell toy env told before ≡ (ok tt, after_tell)
unfolding tell send_plaintext send encrypt_data send_peer_message Receive.send_message send_text
    Receive.receive_ack Receive.read_loop numeric read_event to_string Receive.ack_round peer_codec
tells = refl

hears : next_peer_message_some peer.wormhole.server ≡ (ok relayed, peer_after.server)
unfolding next_peer_message_some bytes_eq next_peer_message Wire.receive_message
    Machine.receive_message contains
hears = refl

hear-tell_example :
    hear toy env peer
    ≡ (ok told, record peer { wormhole = record peer.wormhole { server = peer_after.server } })
hear-tell_example =
    hear-tell toy toy-IsSound toy_text env env before after_tell peer peer_after.server told relayed
      toy_text-IsFaithful tt refl refl refl (omega arith) tells refl refl refl hears

receive_transit-complain_example :
    (Path
      (Outcome TransferError Peer × Session)
      (complain toy env unsupported_offer before)
      (err unsupported_offer, after_tell))
    × (receive_transit toy env peer ≡ (
      err (peer_error (codes "hi")),
      record peer { wormhole = record peer.wormhole { server = peer_after.server } },
    ))
receive_transit-complain_example =
    receive_transit-complain toy toy-IsSound toy_text env env before after_tell peer
      peer_after.server unsupported_offer relayed toy_text-IsFaithful refl refl refl (omega arith)
      tells refl refl refl hears
