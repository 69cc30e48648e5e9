-- ===== src/Transfer/Stream/Ends.antt =====
-- Both ends of a transfer of src/transfer.rs, over the transit that the handshake of src/transit.rs
-- sets up, and a sender that does not keep to the size that it has offered.
use magic_wormhole_rs.Common.{
  ℕ, suc, ◌<◌, ◌≤◌, ◌≡◌, refl, List, [], ◌++◌, some, true, false, Bytes, ok, panic, length, All,
  lt→ltb,
}
use magic_wormhole_rs.Core.Crypto.{Crypto, IsSound}
use magic_wormhole_rs.Core.Key.{Key}
use magic_wormhole_rs.Transit.Socket.{Socket}
use magic_wormhole_rs.Transit.Record.{Transit}
use magic_wormhole_rs.Transit.Records.{frame}
use magic_wormhole_rs.Transit.Handshake.{established, record_keys}
use magic_wormhole_rs.Transfer.Records.{Read, send_records, receive_records, receive_loop, Download}
use magic_wormhole_rs.Transfer.Stream.{data_of}
use magic_wormhole_rs.Transfer.Stream.Step.{Fits, stored, receive_block-frame, write_content-done}
use magic_wormhole_rs.Transfer.Stream.Arrival.{receive_records-send_records}
use magic_wormhole_rs.Util.Counter.{sodium_increment_be}

-- A download that begins: the follower's transit, and an empty content handler that works.
abbrev pub begun : Transit → Download
begun t = record { transit = t; content = []; writable = true }

module _ (c : Crypto) (sound : IsSound c) where
  -- A file whose records the leader puts on the wire after a handshake reaches the follower after a
  -- handshake with the same transit key: if the sending side succeeds, with reads of at most 4096
  -- bytes, and exactly its bytes come first in the follower's stream, then the follower ends with the
  -- same checksum and exactly the file's bytes.
  pub established-Transfers :
      (key : Key) (size : ℕ) (file : List Read) (w rest sum : Bytes) (s r : Socket) (u : Transit)
      → All Fits file
      → send_records c size file (established c key true s) ≡ (ok sum, u)
      → u.socket.output ≡ s.output ++ w
      → r.input ≡ w ++ rest
      → (e : Download) × (receive_records c size (begun (established c key false r)) ≡ (ok sum, e))
        × (e.content ≡ data_of file)
  unfolding established record_keys
  established-Transfers key size file w rest sum s r u fit h o i =
      receive_records-send_records c sound size file w rest sum (established c key true s) u
        (begun (established c key false r)) fit refl h o refl refl i refl

  -- A receiver that has still to read `suc r` bytes, and is sent a longer record, writes that record
  -- to the content handler and then panics.
  pub receive_loop-Oversized :
      (fuel r : ℕ) (hashed b ct rest : Bytes) (d : Download)
      → length d.transit.rnonce ≡ 24
      → length b ≤ 4096
      → suc r < length b
      → c.encrypt d.transit.rkey d.transit.rnonce b ≡ some ct
      → d.transit.socket.input ≡ frame d.transit.rnonce ct ++ rest
      → d.writable ≡ true
      → receive_loop c (suc fuel) (suc r) hashed d ≡ (panic, stored d b rest)
  unfolding receive_loop
  receive_loop-Oversized fuel r hashed b ct rest d n small long e i w =
      let got : Download = record d {
        transit = record (d.transit) {
          socket = record (d.transit.socket) { input = rest };
          rnonce = sodium_increment_be d.transit.rnonce;
        };
      } in
      rw
        (
          receive_block-frame c sound b ct rest d n small e i,
          write_content-done c sound b got w,
          lt→ltb (suc r) (length b) long,
        )
        refl
