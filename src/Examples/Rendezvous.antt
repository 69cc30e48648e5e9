-- ===== src/Examples/Rendezvous.antt =====
-- The rendezvous protocol of src/core/rendezvous.rs on concrete events.
use magic_wormhole_rs.Common.{
  ◌≡◌, refl, List, [], ◌∷◌, ◌++◌, Option, none, some, Bytes, ok, pending, bytes_eq,
}
use magic_wormhole_rs.Common.Text.{codes}
use magic_wormhole_rs.Core.Names.{happy}
use magic_wormhole_rs.Core.Messages.{
  EncryptedMessage, OutboundMessage, allocate, claim, release, open_mailbox, ack, allocated,
  claimed, released, closed, message,
}
use magic_wormhole_rs.Core.Rendezvous.Wire.{
  Connection, WsEvent, text, ping_frame, send_text, read_event,
}
use magic_wormhole_rs.Core.Rendezvous.Receive.{Wire}
use magic_wormhole_rs.Core.Rendezvous.Receive
use magic_wormhole_rs.Core.Rendezvous.Wire
use magic_wormhole_rs.Core.Rendezvous.Machine
use magic_wormhole_rs.Core.Rendezvous.Machine.{MailboxMachine}
use magic_wormhole_rs.Core.Rendezvous.Server.{
  RendezvousServer, send_message, receive_reply, next_peer_message, next_peer_message_some,
  queued_in,
}
use magic_wormhole_rs.Core.Rendezvous.Setup.{
  claim_open, allocate_claim_open, shutdown, release_nameplate,
}
use magic_wormhole_rs.Core.Rendezvous.Fifo.{Reads, left_of, receive_fifo}
use magic_wormhole_rs.Core.Rendezvous.Delivery.{deliveries, Fresh, processed_of, deliveries-Fresh}
use magic_wormhole_rs.Core.Rendezvous.Waiting.{next_peer_message_some-drained}
use magic_wormhole_rs.Core.Rendezvous.Protocol.{Opens, claim_open-Opens}
use magic_wormhole_rs.Core.Rendezvous.Closing.{farewell, shutdown-farewell}

abbrev hello : EncryptedMessage
hello = record { side = codes "b"; phase = codes "0"; body = 1 ∷ [] }

abbrev own : EncryptedMessage
own = record { side = codes "a"; phase = codes "1"; body = 2 ∷ [] }

abbrev socket_with : List WsEvent → List OutboundMessage → Connection
socket_with events said = record {
  incoming = events;
  sent = said;
  send_faults = [];
  close_fault = none;
}

abbrev fresh : List WsEvent → RendezvousServer
fresh events = record { connection = socket_with events []; state = none; side = codes "a" }

abbrev mailbox : Option Bytes → MailboxMachine
mailbox n = record { nameplate = n; mailbox = codes "mb"; queue = []; processed = [] }

abbrev joined : List WsEvent → List OutboundMessage → Option Bytes → RendezvousServer
joined events said n = record {
  connection = socket_with events said;
  state = some (mailbox n);
  side = codes "a";
}

abbrev claiming : List WsEvent
claiming = text ack ∷ text (claimed (codes "mb")) ∷ ping_frame ∷ text ack ∷ []

claims : claim_open (codes "4") (fresh claiming) ≡ (
  ok (codes "mb"),
  joined [] (claim (codes "4") ∷ open_mailbox (codes "mb") ∷ []) (some (codes "4")),
)
unfolding claim_open send_message Receive.send_message send_text Receive.receive_ack
    Receive.read_loop read_event Receive.ack_round receive_reply Receive.receive_reply
    Receive.reply_round
claims = refl

claim_open-Opens_example :
    Opens
      (fresh claiming)
      (claim (codes "4") ∷ open_mailbox (codes "mb") ∷ [])
      (some (codes "4"))
      (codes "mb")
      (joined [] (claim (codes "4") ∷ open_mailbox (codes "mb") ∷ []) (some (codes "4")))
claim_open-Opens_example =
    claim_open-Opens (fresh claiming)
      (joined [] (claim (codes "4") ∷ open_mailbox (codes "mb") ∷ []) (some (codes "4")))
      (codes "4") (codes "mb") claims

abbrev allocating : List WsEvent
allocating = text ack ∷ text (allocated (codes "4")) ∷ claiming

abbrev allocated_said : List OutboundMessage
allocated_said = allocate ∷ claim (codes "4") ∷ open_mailbox (codes "mb") ∷ []

allocates :
    allocate_claim_open (fresh allocating)
    ≡ (ok (codes "4", codes "mb"), joined [] allocated_said (some (codes "4")))
unfolding allocate_claim_open send_message Receive.send_message send_text Receive.receive_ack
    Receive.read_loop read_event Receive.ack_round receive_reply Receive.receive_reply
    Receive.reply_round
allocates = refl

abbrev releasing : List WsEvent
releasing = text ack ∷ text released ∷ []

releases_it :
    release_nameplate (joined releasing [] (some (codes "4")))
    ≡ (ok tt, joined [] (release (codes "4") ∷ []) none)
unfolding release_nameplate send_message Receive.send_message send_text Receive.receive_ack
    Receive.read_loop read_event Receive.ack_round receive_reply Receive.receive_reply
    Receive.reply_round
releases_it = refl

abbrev leaving : List WsEvent
leaving = text ack ∷ text released ∷ text ack ∷ text closed ∷ []

abbrev left : RendezvousServer
left = joined [] (farewell (some (mailbox (some (codes "4")))) happy) (some (codes "4"))

leaves : shutdown happy (joined leaving [] (some (codes "4"))) ≡ (ok tt, left)
unfolding shutdown send_message Receive.send_message send_text Receive.receive_ack Receive.read_loop
    read_event Receive.ack_round receive_reply Receive.receive_reply Receive.reply_round
leaves = refl

shutdown-farewell_example :
    left.connection.sent
    ≡ (joined leaving [] (some (codes "4"))).connection.sent
      ++ farewell (joined leaving [] (some (codes "4"))).state happy
shutdown-farewell_example =
    shutdown-farewell happy (joined leaving [] (some (codes "4"))) left leaves

abbrev chatter : List WsEvent
chatter = text (message hello) ∷ text (message own) ∷ text (message hello) ∷ []

deliveries-Fresh_example :
    Fresh
      (codes "a")
      (processed_of (joined chatter [] none))
      (deliveries 3 (joined chatter [] none))
deliveries-Fresh_example = deliveries-Fresh 3 (joined chatter [] none)

abbrev echo : List WsEvent
echo = text (message own) ∷ ping_frame ∷ []

waits_for_peer : (next_peer_message_some (joined echo [] none)).0 ≡ pending
unfolding next_peer_message_some bytes_eq next_peer_message Wire.receive_message
    Machine.receive_message
waits_for_peer = refl

next_peer_message_some-drained_example :
    (queued_in (next_peer_message_some (joined echo [] none)).1.state ≡ 0)
    × ((next_peer_message_some (joined echo [] none)).1.connection.incoming ≡ [])
next_peer_message_some-drained_example =
    next_peer_message_some-drained (joined echo [] none) waits_for_peer

abbrev busy : Wire
busy = record {
  connection = socket_with (text (message hello) ∷ text ack ∷ []) [];
  queue = some [];
}

receive_fifo_example :
    Reads busy.connection.incoming busy.queue (left_of (Receive.receive_ack busy))
    × Reads busy.connection.incoming busy.queue (left_of (Receive.receive_reply busy))
receive_fifo_example = receive_fifo busy
