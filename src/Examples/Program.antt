-- ===== src/Examples/Program.antt =====
-- The command line program and the sending of folders, of src/bin/main.rs and src/transfer.rs, on
-- concrete input.
use magic_wormhole_rs.Common.{
  ◌≡◌, ◌≢◌, ◌+◌, ◌<◌, refl, List, [], ◌∷◌, ◌++◌, Option, none, some, true, false, Bytes, bytes_eq,
  contains, Outcome, Bool, ok, err, panic, pending, replicate, length, inl, inr, arith, ℕ, ◌==◌,
  if◌then◌else◌,
}
use magic_wormhole_rs.Common.Text.{codes}
use magic_wormhole_rs.Core.Json.{null}
use magic_wormhole_rs.Core.Names.{Phase}
use magic_wormhole_rs.Core.Messages.{ack, message, welcome, claimed, released}
use magic_wormhole_rs.Core.Rendezvous.Wire.{WsEvent, text, connection_closed}
use magic_wormhole_rs.Core.Wormhole.{Wormhole}
use magic_wormhole_rs.Transit.Hints.{no_hints, direct}
use magic_wormhole_rs.Transit.Socket.{Socket}
use magic_wormhole_rs.Transit.Record.{Transit, zero_nonce}
use magic_wormhole_rs.Transit.Connect.{Ended}
use magic_wormhole_rs.Transfer.Messages.{PeerMessage, new_transit, new_offer_file, new_file_ack}
use magic_wormhole_rs.Transfer.Records.{block, send_block}
use magic_wormhole_rs.Transfer.Session.{Session, Env}
use magic_wormhole_rs.Transfer.Folder.{Folder, send_folder}
use magic_wormhole_rs.Transfer.Folder.Skew.{Sent, send_folder-Sent}
use magic_wormhole_rs.Core.Connect.{connect_with_code}
use magic_wormhole_rs.Cli.Connect.{app_config}
use magic_wormhole_rs.Cli.Desk.{Desk}
use magic_wormhole_rs.Cli.Receive.{receive}
use magic_wormhole_rs.Cli.Receive.Safety.{Kept, receive-Kept}
use magic_wormhole_rs.Cli.Send.{Order, Round, Booth, send_many}
use magic_wormhole_rs.Cli.Send.Count.{Launched, Joins, send_many-Launched, send_many-exhausted}
use magic_wormhole_rs.Examples.Crates.{toy}
use magic_wormhole_rs.Examples.Handshake.{seated, env_a, pake_of, version_of}

-- A message is told by its first byte.
abbrev read_message : Bytes → Option PeerMessage
read_message [] = none
read_message (x ∷ rest) =
    if x == 1
    then some (new_transit [] [])
    else if x == 2
    then some (new_offer_file rest 3)
    else if x == 3
    then some (new_file_ack rest)
    else none

abbrev env_with : List Ended → Env
env_with ended = record {
  json = record { to_vec = λ m. some (9 ∷ []); from_slice = read_message };
  ack_json = record {
    to_vec = λ a. a.sha256;
    from_slice = λ b. some (record { ack = codes "ok"; sha256 = b });
  };
  display = λ e. codes "error";
  display_transit = λ e. codes "error";
  attempts = λ key abilities hints. ended;
  our_hints = no_hints;
}

-- A message of the peer as the server hands it on.
abbrev posted : Phase → Bytes → WsEvent
posted phase plaintext = text (
    message (record {
      side = codes "b";
      phase = phase;
      body = replicate 24 1 ++ (replicate 16 0 ++ plaintext);
    }))

abbrev session_on : List WsEvent → Session
session_on events = record {
  wormhole = record {
    server = seated (codes "a") events [] [];
    phase = 0;
    key = codes "key";
    appid = codes "id";
    verifier = [];
    peer_version = null;
  };
  nonces = λ i. replicate 24 1;
  drawn = 0;
}

-- An archive of three bytes, and a ring buffer that gives them in one read.
abbrev folder : Folder
folder = record {
  measured = some ((1 ∷ 2 ∷ []) ∷ (3 ∷ []) ∷ []);
  streamed = some ((1 ∷ 2 ∷ 3 ∷ [], some 3) ∷ []);
  reads = block (1 ∷ 2 ∷ 3 ∷ []) ∷ [];
}

abbrev line : Bytes → Transit
line input = record {
  socket = record { input = input; ended = false; output = []; writable = true };
  skey = [];
  rkey = [];
  snonce = zero_nonce;
  rnonce = zero_nonce;
}

abbrev acknowledging : Bytes
acknowledging = (0 ∷ 0 ∷ 0 ∷ 104 ∷ []) ++ (replicate 24 0 ++ (replicate 16 0 ++ replicate 64 0))

abbrev leading : Env
leading = env_with (record { at = 1; result = some (line acknowledging, direct) } ∷ [])

abbrev folder_talk : List WsEvent
folder_talk =
    text ack ∷ text ack ∷ posted (codes "0") (1 ∷ []) ∷ posted (codes "1") (3 ∷ codes "ok") ∷ []

sends_folder :
    (send_folder toy leading true (codes "dir.tar") folder (session_on folder_talk)).0 ≡ ok tt
unfolding send_folder magic_wormhole_rs.Core.Wormhole.send magic_wormhole_rs.Core.Key.encrypt_data
    magic_wormhole_rs.Core.Rendezvous.Server.send_peer_message
    magic_wormhole_rs.Core.Rendezvous.Receive.send_message
    magic_wormhole_rs.Core.Rendezvous.Wire.send_text
    magic_wormhole_rs.Core.Rendezvous.Receive.receive_ack
    magic_wormhole_rs.Core.Rendezvous.Receive.read_loop
    magic_wormhole_rs.Core.Rendezvous.Wire.read_event
    magic_wormhole_rs.Core.Rendezvous.Receive.ack_round magic_wormhole_rs.Core.Wormhole.receive
    magic_wormhole_rs.Core.Rendezvous.Server.next_peer_message_some
    magic_wormhole_rs.Core.Rendezvous.Server.next_peer_message
    magic_wormhole_rs.Core.Rendezvous.Wire.receive_message
    magic_wormhole_rs.Core.Rendezvous.Machine.receive_message bytes_eq contains
    magic_wormhole_rs.Core.Names.to_num magic_wormhole_rs.Common.Decimal.parse
    magic_wormhole_rs.Core.Key.decrypt magic_wormhole_rs.Transit.Socket.write_all
    magic_wormhole_rs.Transit.Socket.read_exact magic_wormhole_rs.Transit.Socket.read_up_to
    magic_wormhole_rs.Transit.Socket.from_be_bytes
sends_folder = refl

send_folder-Sent_example :
    (true ≡ true) × Sent toy leading (codes "dir.tar") folder (session_on folder_talk)
send_folder-Sent_example =
    send_folder-Sent toy leading true (codes "dir.tar") folder (session_on folder_talk)
      (send_folder toy leading true (codes "dir.tar") folder (session_on folder_talk)).1
      (λ j. (
        sends_folder j,
        (send_folder toy leading true (codes "dir.tar") folder (session_on folder_talk)).1,
      ))

-- The ring buffer gives two of the three bytes first.
abbrev trickling : Folder
trickling = record folder { reads = block (1 ∷ 2 ∷ []) ∷ block (3 ∷ []) ∷ [] }

sends_two : (send_block toy (1 ∷ 2 ∷ []) (line [])).0 ≡ ok tt
unfolding send_block magic_wormhole_rs.Transit.Socket.write_all
sends_two = refl

-- A sender who offers a path, and a user who says yes.
abbrev desk : Desk
desk = record {
  session = session_on (
      text ack
      ∷ posted (codes "0") (1 ∷ [])
      ∷ posted (codes "1") (2 ∷ codes "../../evil")
      ∷ text ack
      ∷ []);
  terminal = record { input = some (codes "y") ∷ []; printed = [] };
  files = record { entries = (codes "out/other", 7 ∷ []) ∷ []; denied = λ path. none };
}

receive-Kept_example :
    Kept
      (λ files. files)
      (codes "out")
      none
      (some (codes "y") ∷ [])
      desk.files
      (receive toy (env_with []) (λ name. name) (λ files. files) (codes "out") none desk).1.files
receive-Kept_example =
    receive-Kept (λ files. files) (codes "out") none toy (env_with []) (λ name. name) desk

abbrev order : Order
order = record {
  relay_server = record { host = codes "relay"; port = 4001 };
  code = codes "4-code";
  file_path = codes "/tmp/a";
  file_name = codes "a";
  max_tries = 2;
  timeout = 100;
  show_timeout = codes "100ns";
}

-- The websocket does not open any more.
abbrev offline : ℕ → Round
offline i = record {
  elapsed = 0;
  net = record {
    env = env_a;
    mint = λ resource bits. none;
    side = codes "a";
    socket = λ url. inr connection_closed;
  };
}

abbrev booth : Booth
booth = record { terminal = record { input = []; printed = [] }; spawned = [] }

send_many-Launched_example :
    Launched order (2 + 2) booth (send_many order offline (session_on []).wormhole booth).1
    × (length booth.spawned
        < length (send_many order offline (session_on []).wormhole booth).1.spawned)
send_many-Launched_example = send_many-Launched order offline (session_on []).wormhole booth

-- A server on which the peer of the code waits.
abbrev meeting : List WsEvent
meeting =
    text (
      welcome (record {
        current_cli_version = none;
        motd = none;
        error = none;
        permission_required = none;
      }))
    ∷ text ack
    ∷ text ack
    ∷ text (claimed (codes "mb"))
    ∷ text ack
    ∷ text ack
    ∷ text (message (pake_of (codes "b") (8 ∷ [])))
    ∷ text ack
    ∷ text (message (version_of (codes "b") (2 ∷ [])))
    ∷ text ack
    ∷ text released
    ∷ []

abbrev online : ℕ → Round
online i = record {
  elapsed = 7;
  net = record {
    env = env_a;
    mint = λ resource bits. none;
    side = codes "a";
    socket =
        λ url. inl (record { incoming = meeting; sent = []; send_faults = []; close_fault = none });
  };
}

abbrev is_ok : {E A : Type 0} → Outcome E A → Bool
is_ok (ok a) = true
is_ok _ = false

found : {E A : Type 0} (o : Outcome E A) → is_ok o ≡ true → (a : A) × (o ≡ ok a)
found (ok a) h = (a, refl)
found (err e) h = cc
found panic h = cc
found pending h = cc

meets :
    is_ok (
      connect_with_code env_a
        (λ resource bits. none)
        (codes "a")
        (inl (record { incoming = meeting; sent = []; send_faults = []; close_fault = none }))
        app_config
        (codes "4-code"))
    ≡ true
unfolding connect_with_code bytes_eq contains magic_wormhole_rs.Core.Rendezvous.Setup.connect
    magic_wormhole_rs.Core.Rendezvous.Setup.claim_open
    magic_wormhole_rs.Core.Rendezvous.Setup.release_nameplate
    magic_wormhole_rs.Core.Rendezvous.Setup.needs_nameplate_release
    magic_wormhole_rs.Core.Rendezvous.Receive.receive_message_some
    magic_wormhole_rs.Core.Rendezvous.Receive.read_loop
    magic_wormhole_rs.Core.Rendezvous.Receive.send_message
    magic_wormhole_rs.Core.Rendezvous.Receive.receive_ack
    magic_wormhole_rs.Core.Rendezvous.Receive.ack_round
    magic_wormhole_rs.Core.Rendezvous.Receive.receive_reply
    magic_wormhole_rs.Core.Rendezvous.Receive.reply_round
    magic_wormhole_rs.Core.Rendezvous.Wire.send_text
    magic_wormhole_rs.Core.Rendezvous.Wire.read_event
    magic_wormhole_rs.Core.Rendezvous.Server.receive_reply
    magic_wormhole_rs.Core.Rendezvous.Server.send_message
    magic_wormhole_rs.Core.Rendezvous.Server.send_peer_message
    magic_wormhole_rs.Core.Rendezvous.Server.next_peer_message_some
    magic_wormhole_rs.Core.Rendezvous.Server.next_peer_message
    magic_wormhole_rs.Core.Rendezvous.Wire.receive_message
    magic_wormhole_rs.Core.Rendezvous.Machine.receive_message
    magic_wormhole_rs.Core.Connect.exchange_pake magic_wormhole_rs.Core.Connect.exchange_versions
    magic_wormhole_rs.Core.Connect.connect_custom magic_wormhole_rs.Core.Key.extract_pake_msg
    magic_wormhole_rs.Core.Key.build_version_msg magic_wormhole_rs.Core.Key.decrypt
    magic_wormhole_rs.Core.Key.make_pake magic_wormhole_rs.Core.Key.set_app_versions
    magic_wormhole_rs.Core.Key.derive_verifier magic_wormhole_rs.Core.Rendezvous.Receive.some_round
meets = refl

online-Joins : (i : ℕ) → Joins order (online i)
online-Joins i = let (a, h) = found _ meets in (a.0, (a.1, h))

send_many-exhausted_example :
    ((send_many order online (session_on []).wormhole booth).0 ≡ ok tt)
    × (length (send_many order online (session_on []).wormhole booth).1.spawned ≡ 0 + (2 + 2))
send_many-exhausted_example =
    send_many-exhausted order online online-Joins (λ i. omega arith) (omega arith)
      (session_on []).wormhole booth
