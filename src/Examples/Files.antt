-- ===== src/Examples/Files.antt =====
-- The file transfer of src/transfer.rs on concrete input.
use magic_wormhole_rs.Common.{
  ◌≡◌, refl, List, [], ◌∷◌, ◌++◌, true, false, Bytes, ok, replicate, arith,
}
use magic_wormhole_rs.Common.Text.{codes}
use magic_wormhole_rs.Transit.Socket.{Socket, write_all, to_be_bytes}
use magic_wormhole_rs.Util.Counter.{sodium_increment_be, increment_loop}
use magic_wormhole_rs.Transit.Record.{Transit, zero_nonce}
use magic_wormhole_rs.Transit.Hints.{Hints}
use magic_wormhole_rs.Transfer.Records.{Read, block, send_records, receive_records, Download}
use magic_wormhole_rs.Transfer.Stream.{data_of}
use magic_wormhole_rs.Transfer.Stream.Arrival.{receive_records-send_records}
use magic_wormhole_rs.Transfer.Messages.{Hint, direct_udt_v1}
use magic_wormhole_rs.Transfer.Stream.Ends.{begun, established-Transfers}
use magic_wormhole_rs.Transit.Handshake.{established}
use magic_wormhole_rs.Transit.Records.{frame}
use magic_wormhole_rs.Examples.Crates.{toy, toy-IsSound}

abbrev three : List Read
three = block (1 ∷ 2 ∷ 3 ∷ []) ∷ []

abbrev idle : Socket
idle = record { input = []; ended = false; output = []; writable = true }

abbrev sender : Transit
sender = record { socket = idle; skey = []; rkey = []; snonce = zero_nonce; rnonce = zero_nonce }

abbrev wire : Bytes
wire = (0 ∷ 0 ∷ 0 ∷ 43 ∷ []) ++ (replicate 24 0 ++ (replicate 16 0 ++ (1 ∷ 2 ∷ 3 ∷ [])))

abbrev sent : Transit
sent = record {
  socket = record { input = []; ended = false; output = wire; writable = true };
  skey = [];
  rkey = [];
  snonce = replicate 23 0 ++ (1 ∷ []);
  rnonce = zero_nonce;
}

abbrev download : Download
download = record {
  transit = record {
    socket = record { input = wire ++ []; ended = false; output = []; writable = true };
    skey = [];
    rkey = [];
    snonce = zero_nonce;
    rnonce = zero_nonce;
  };
  content = [];
  writable = true;
}

sends : send_records toy 3 three sender ≡ (ok (replicate 32 0), sent)
unfolding send_records write_all to_be_bytes sodium_increment_be increment_loop
sends = refl

receive_records-send_records_example :
    (e : Download) × (receive_records toy 3 download ≡ (ok (replicate 32 0), e))
    × (e.content ≡ download.content ++ data_of three)
receive_records-send_records_example =
    receive_records-send_records toy toy-IsSound 3 three wire [] (replicate 32 0) sender sent
      download (omega arith, tt) refl sends refl refl refl refl refl

abbrev hints : Hints
hints = record {
  direct_tcp =
      record { hostname = codes "a"; port = 1 } ∷ record { hostname = codes "a"; port = 2 } ∷ [];
  relay = record { hostname = codes "r"; port = 4001 } ∷ [];
}

abbrev odd : List Hint
odd = direct_udt_v1 (record { hostname = codes "a"; port = 1 }) ∷ []

abbrev after_idle : Socket
after_idle = record { input = []; ended = false; output = wire; writable = true }

abbrev led : Transit
led = record (established toy (4 ∷ []) true after_idle) { snonce = replicate 23 0 ++ (1 ∷ []) }

abbrev arrived : Socket
arrived = record { input = wire ++ []; ended = false; output = []; writable = true }

leads : send_records toy 3 three (established toy (4 ∷ []) true idle) ≡ (ok (replicate 32 0), led)
unfolding send_records write_all to_be_bytes sodium_increment_be increment_loop established
leads = refl

established-Transfers_example :
    (e : Download) × (receive_records toy 3 (begun (established toy (4 ∷ []) false arrived))
      ≡ (ok (replicate 32 0), e))
    × (e.content ≡ data_of three)
unfolding established
established-Transfers_example =
    established-Transfers toy toy-IsSound (4 ∷ []) 3 three wire [] (replicate 32 0) idle arrived led
      (omega arith, tt) leads refl refl

abbrev tag : Bytes
tag = replicate 16 0 ++ (1 ∷ 2 ∷ 3 ∷ [])

abbrev flooded : Download
flooded = record download {
  transit = record (download.transit) {
    socket = record (download.transit.socket) { input = frame zero_nonce tag ++ [] };
  };
}
