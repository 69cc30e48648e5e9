-- ===== src/Examples/Handshake.antt =====
-- The handshake of src/core.rs between two clients, on the messages that each sends the other.
use magic_wormhole_rs.Common.{
  ◌≡◌, refl, List, [], ◌∷◌, ◌++◌, none, some, Bytes, ok, bytes_eq, replicate, contains, inl, inr,
}
use magic_wormhole_rs.Common.Text.{codes}
use magic_wormhole_rs.Core.Names.{MySide, Phase, pake, version}
use magic_wormhole_rs.Core.Crypto.{Codec}
use magic_wormhole_rs.Core.Key.{
  PhaseMessage, VersionsMessage, extract_pake_msg, build_version_msg, decrypt, make_pake,
  set_app_versions, new_versions, derive_verifier,
}
use magic_wormhole_rs.Core.Json.{string}
use magic_wormhole_rs.Core.Messages.{
  Value, EncryptedMessage, OutboundMessage, add, ack, message, released,
}
use magic_wormhole_rs.Core.Rendezvous.Wire.{Connection, WsEvent, text, send_text, read_event}
use magic_wormhole_rs.Core.Rendezvous.Wire
use magic_wormhole_rs.Core.Rendezvous.Receive
use magic_wormhole_rs.Core.Rendezvous.Machine
use magic_wormhole_rs.Core.Rendezvous.Machine.{MailboxMachine}
use magic_wormhole_rs.Core.Rendezvous.Server.{
  RendezvousServer, next_peer_message, next_peer_message_some, send_message, send_peer_message,
}
use magic_wormhole_rs.Core.Rendezvous.Setup.{needs_nameplate_release}
use magic_wormhole_rs.Core.Rendezvous.Todo.{todo, fresh_messages}
use magic_wormhole_rs.Core.Rendezvous.Refinement.{say, hear, free_nameplate, run, run-Refines}
use magic_wormhole_rs.Core.Wormhole.{Wormhole}
use magic_wormhole_rs.Core.Connect.{Env, exchange_pake, exchange_versions, connect_custom}
use magic_wormhole_rs.Core.Connect.Schedule.{seat}
use magic_wormhole_rs.Core.Connect.Completion.{
  Schedule, Attended, attended, connect_custom-completes,
}
use magic_wormhole_rs.Core.Connect.Versions.{connect_custom-Versions}
use magic_wormhole_rs.Core.Connect.Agreement.{ReadsBack, connect_custom-Agree}
use magic_wormhole_rs.Examples.Crates.{toy, toy-IsSymmetric, toy-IsSound}

abbrev phases : Codec PhaseMessage
phases = record { to_vec = λ m. m.pake_v1; from_slice = λ b. some (record { pake_v1 = b }) }

abbrev text_of : Value → Bytes
text_of (string b) = b
text_of _ = []

abbrev versions : Codec VersionsMessage
versions = record {
  to_vec = λ m. text_of m.app_versions;
  from_slice = λ b. some (record { abilities = []; app_versions = string b });
}

-- The client with the random scalar 7, and the one with 8.
abbrev pub env_a : Env
env_a = record {
  crypto = toy;
  phase_json = phases;
  versions_json = versions;
  pake_random = 7 ∷ [];
  version_nonce = replicate 24 1;
}

abbrev sealed : Bytes → Bytes
sealed app = replicate 24 1 ++ (replicate 16 0 ++ app)

-- What a client sends in the handshake.
abbrev pub pake_of : MySide → Bytes → EncryptedMessage
pake_of side random = record { side = side; phase = pake; body = random }

abbrev pub version_of : MySide → Bytes → EncryptedMessage
version_of side app = record { side = side; phase = version; body = sealed app }

abbrev told : MySide → Bytes → Bytes → List EncryptedMessage
told side random app = pake_of side random ∷ version_of side app ∷ []

abbrev a : MySide
a = codes "a"

abbrev b : MySide
b = codes "b"

abbrev arriving : List EncryptedMessage → List WsEvent
arriving [] = []
arriving (m ∷ ms) = text ack ∷ text (message m) ∷ arriving ms

abbrev pub seated : MySide → List WsEvent → List Phase → List OutboundMessage → RendezvousServer
seated side events seen said = record {
  connection = record { incoming = events; sent = said; send_faults = []; close_fault = none };
  state = some (record { nameplate = none; mailbox = codes "mb"; queue = []; processed = seen });
  side = side;
}

abbrev before : MySide → List EncryptedMessage → RendezvousServer
before side heard = seated side (arriving heard) [] []

abbrev behind : MySide → Bytes → Bytes → RendezvousServer
behind side random app =
    seated side [] (version ∷ pake ∷ []) (add pake random ∷ add version (sealed app) ∷ [])

abbrev wormhole : MySide → Bytes → Bytes → Bytes → Wormhole
wormhole side random app peer = record {
  server = behind side random app;
  phase = 0;
  key = codes "4-code";
  appid = codes "id";
  verifier = replicate 32 7;
  peer_version = string peer;
}

meets_b :
    connect_custom env_a
      (codes "id")
      (codes "4-code")
      (string (1 ∷ []))
      (before a (told b (8 ∷ []) (2 ∷ [])))
    ≡ (ok (wormhole a (7 ∷ []) (1 ∷ []) (2 ∷ [])), behind a (7 ∷ []) (1 ∷ []))
unfolding connect_custom exchange_pake exchange_versions send_peer_message send_message
    Receive.send_message send_text Receive.receive_ack Receive.read_loop read_event
    Receive.ack_round next_peer_message_some next_peer_message Wire.receive_message
    Machine.receive_message bytes_eq contains extract_pake_msg build_version_msg decrypt
    needs_nameplate_release make_pake set_app_versions derive_verifier
meets_b = refl

meets_a :
    connect_custom
      (record env_a { pake_random = 8 ∷ []; version_nonce = replicate 24 1 })
      (codes "id")
      (codes "4-code")
      (string (2 ∷ []))
      (before b (told a (7 ∷ []) (1 ∷ [])))
    ≡ (ok (wormhole b (8 ∷ []) (2 ∷ []) (1 ∷ [])), behind b (8 ∷ []) (2 ∷ []))
unfolding connect_custom exchange_pake exchange_versions send_peer_message send_message
    Receive.send_message send_text Receive.receive_ack Receive.read_loop read_event
    Receive.ack_round next_peer_message_some next_peer_message Wire.receive_message
    Machine.receive_message bytes_eq contains extract_pake_msg build_version_msg decrypt
    needs_nameplate_release make_pake set_app_versions derive_verifier
meets_a = refl

phases_back : ReadsBack phases
unfolding ReadsBack
phases_back m = refl

heard_by_a : todo (before a (told b (8 ∷ []) (2 ∷ []))) ≡ told b (8 ∷ []) (2 ∷ [])
unfolding fresh_messages bytes_eq contains
heard_by_a = refl

heard_by_b : todo (before b (told a (7 ∷ []) (1 ∷ []))) ≡ told a (7 ∷ []) (1 ∷ [])
unfolding fresh_messages bytes_eq contains
heard_by_b = refl

sent_by_b : 8 ∷ [] ≡ (make_pake toy phases (8 ∷ []) (codes "4-code") (codes "id")).1
unfolding make_pake
sent_by_b = refl

sent_by_a : 7 ∷ [] ≡ (make_pake toy phases (7 ∷ []) (codes "4-code") (codes "id")).1
unfolding make_pake
sent_by_a = refl

connect_custom-Agree_example :
    ((wormhole a (7 ∷ []) (1 ∷ []) (2 ∷ [])).key ≡ (wormhole b (8 ∷ []) (2 ∷ []) (1 ∷ [])).key)
    × ((wormhole a (7 ∷ []) (1 ∷ []) (2 ∷ [])).verifier
        ≡ (wormhole b (8 ∷ []) (2 ∷ []) (1 ∷ [])).verifier)
connect_custom-Agree_example =
    connect_custom-Agree env_a (8 ∷ []) (replicate 24 1) (codes "id") (codes "4-code")
      (string (1 ∷ [])) (string (2 ∷ [])) (before a (told b (8 ∷ []) (2 ∷ [])))
      (behind a (7 ∷ []) (1 ∷ [])) (before b (told a (7 ∷ []) (1 ∷ [])))
      (behind b (8 ∷ []) (2 ∷ [])) (wormhole a (7 ∷ []) (1 ∷ []) (2 ∷ []))
      (wormhole b (8 ∷ []) (2 ∷ []) (1 ∷ [])) (pake_of b (8 ∷ [])) (pake_of a (7 ∷ []))
      (version_of b (2 ∷ []) ∷ []) (version_of a (1 ∷ []) ∷ []) toy-IsSymmetric phases_back
      heard_by_a sent_by_b heard_by_b sent_by_a meets_b meets_a

run-Refines_example :
    todo (before a (told b (8 ∷ []) (2 ∷ [])))
    ≡ (run
        (say pake (7 ∷ []) ∷ hear ∷ free_nameplate ∷ hear ∷ [])
        (before a (told b (8 ∷ []) (2 ∷ [])))).0
      ++ todo
          (run
            (say pake (7 ∷ []) ∷ hear ∷ free_nameplate ∷ hear ∷ [])
            (before a (told b (8 ∷ []) (2 ∷ [])))).1
run-Refines_example =
    run-Refines (say pake (7 ∷ []) ∷ hear ∷ free_nameplate ∷ hear ∷ [])
      (before a (told b (8 ∷ []) (2 ∷ [])))

versions_back :
    versions.from_slice (versions.to_vec (set_app_versions (string (2 ∷ [])) new_versions))
    ≡ some (set_app_versions (string (2 ∷ [])) new_versions)
unfolding set_app_versions
versions_back = refl

made_by_b :
    build_version_msg toy versions
      (replicate 24 1)
      b
      (codes "4-code")
      (set_app_versions (string (2 ∷ [])) new_versions)
    ≡ some (version, sealed (2 ∷ []))
unfolding build_version_msg set_app_versions
made_by_b = refl

connect_custom-Versions_example :
    (wormhole a (7 ∷ []) (1 ∷ []) (2 ∷ [])).peer_version ≡ string (2 ∷ [])
connect_custom-Versions_example =
    connect_custom-Versions env_a (codes "id") (codes "4-code") (string (1 ∷ [])) (string (2 ∷ []))
      (replicate 24 1) (before a (told b (8 ∷ []) (2 ∷ []))) (behind a (7 ∷ []) (1 ∷ []))
      (wormhole a (7 ∷ []) (1 ∷ []) (2 ∷ [])) (pake_of b (8 ∷ [])) (version_of b (2 ∷ [])) []
      toy-IsSound versions_back refl heard_by_a refl made_by_b meets_b

abbrev learned : VersionsMessage
learned = record { abilities = []; app_versions = string (2 ∷ []) }

-- The peer's PAKE message is there before the first acknowledgement, and each message of the client
-- comes back as an echo.
abbrev mailbox_of_a : List WsEvent
mailbox_of_a =
    text (message (pake_of b (8 ∷ [])))
    ∷ text ack
    ∷ text (message (pake_of a (7 ∷ [])))
    ∷ text ack
    ∷ text (message (version_of a (1 ∷ [])))
    ∷ text (message (version_of b (2 ∷ [])))
    ∷ text ack
    ∷ text released
    ∷ []

mailbox_of_a-Schedule : Schedule a [] (pake_of b (8 ∷ [])) (version_of b (2 ∷ [])) [] mailbox_of_a
unfolding bytes_eq contains
mailbox_of_a-Schedule = record {
  q1 = pake_of b (8 ∷ []) ∷ [];
  events1 = _;
  pake_acked = (pake_of b (8 ∷ []) ∷ [], refl, refl);
  q2 = [];
  events2 = _;
  pake_passed = (refl, refl, [], tt, inl (refl, refl));
  q3 = pake_of a (7 ∷ []) ∷ [];
  events3 = _;
  version_acked = (pake_of a (7 ∷ []) ∷ [], refl, refl);
  q4 = [];
  events4 = _;
  version_passed =
      (refl, refl, version_of a (1 ∷ []) ∷ [], (inl refl, tt), inr ((inl refl, tt), refl, refl));
  q5 = [];
  events5 = _;
  release_acked = ([], refl, refl);
  q6 = [];
  rest = [];
  release_answered = ([], refl, refl);
}

mailbox_of_a-Attended :
    Attended env_a
      (codes "id")
      (codes "4-code")
      (string (1 ∷ []))
      a
      (codes "4-code")
      (version, sealed (1 ∷ []))
      learned
      (pake_of b (8 ∷ []))
      (version_of b (2 ∷ []))
unfolding extract_pake_msg make_pake build_version_msg set_app_versions decrypt
mailbox_of_a-Attended = record {
  peer_pake = 8 ∷ [];
  plaintext = 2 ∷ [];
  extracted = refl;
  finished = refl;
  built = refl;
  decrypted = refl;
  parsed = refl;
}

-- The server that the client is left with.
abbrev left_of_a : RendezvousServer
left_of_a =
    attended env_a (codes "id") (codes "4-code") (string (1 ∷ [])) a (codes "mb") (codes "4") [] []
      [] mailbox_of_a (codes "4-code") (version, sealed (1 ∷ [])) learned (pake_of b (8 ∷ []))
      (version_of b (2 ∷ [])) mailbox_of_a-Attended mailbox_of_a-Schedule

connect_custom-completes_example :
    connect_custom env_a
      (codes "id")
      (codes "4-code")
      (string (1 ∷ []))
      (seat a (codes "mb") (some (codes "4")) [] [] [] mailbox_of_a)
    ≡ (
      ok (record {
        server = left_of_a;
        phase = 0;
        key = codes "4-code";
        appid = codes "id";
        verifier = derive_verifier toy (codes "4-code");
        peer_version = string (2 ∷ []);
      }),
      left_of_a,
    )
connect_custom-completes_example =
    connect_custom-completes env_a (codes "id") (codes "4-code") (string (1 ∷ [])) a (codes "mb")
      (codes "4") [] [] [] mailbox_of_a (codes "4-code") (version, sealed (1 ∷ [])) learned
      (pake_of b (8 ∷ [])) (version_of b (2 ∷ [])) mailbox_of_a-Attended mailbox_of_a-Schedule
