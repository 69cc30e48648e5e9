-- ===== src/Transfer/Records.antt =====
-- The file as records: `send_records`, `receive_records` and `tcp_file_receive` of src/transfer.rs.
-- Progress handlers are left out.
use magic_wormhole_rs.Common.{
  ℕ, zero, suc, ◌+◌, ◌-◌, ◌^◌, List, [], ◌∷◌, ◌++◌, Option, none, some, Bool, Bytes, Outcome, ok,
  err, panic, pending, Action, after, ◌>>=◌, ◌>>◌, return, fail, expect, ensure, length, ltb, ◌==◌,
  if◌then◌else◌,
}
use magic_wormhole_rs.Common.Text.{codes}
use magic_wormhole_rs.Core.Crypto.{Crypto, Codec}
use magic_wormhole_rs.Transit.Socket.{IoError, broken_pipe}
use magic_wormhole_rs.Transit.Record.{TransitError, Transit, receive_record, send_record}
use magic_wormhole_rs.Transfer.Messages.{
  TransferError, transit_error, io_error, file_size, TransitAck,
}

-- What one `file.read` gives, of at most 4096 bytes; behind the last one the file is at its end.
pub data Read : Type 0 where
  block : Bytes → Read
  failed : IoError → Read

-- `?` on a call of the transit.
abbrev pub from_transit : {A : Type 0} → Outcome TransitError A → Outcome TransferError A
from_transit (ok a) = ok a
from_transit (err e) = err (transit_error e)
from_transit panic = panic
from_transit pending = pending

-- `sent_size += n as u64`, which panics on overflow.
abbrev pub add_size : ℕ → ℕ → Option ℕ
add_size sent n = if ltb (sent + n) (2 ^ 64) then some (sent + n) else none

module _ (c : Crypto) where
  unfoldable pub send_block : Bytes → Action Transit TransferError (Unit {0})
  unfolding send_record
  send_block plaintext t = let (o, u) = send_record c plaintext t in (from_transit o, u)

  module _ (size : ℕ) where
    unfoldable pub finish : ℕ → Bytes → Action Transit TransferError Bytes
    finish sent_size hashed = do
      ensure (sent_size == size) (file_size sent_size size)
      return (c.sha256 hashed)

    -- The loop of `send_records`; `hashed` is what the hasher was given.
    unfoldable pub send_loop : ℕ → Bytes → List Read → Action Transit TransferError Bytes
    unfolding send_block finish
    send_loop sent_size hashed [] = do send_block []; finish sent_size hashed
    send_loop sent_size hashed (failed e ∷ reads) = fail (io_error e)
    send_loop sent_size hashed (block b ∷ reads) = do
      send_block b
      sent ← expect (add_size sent_size (length b))
      if ltb (length b) 4096 then finish sent (hashed ++ b) else send_loop sent (hashed ++ b) reads

    unfoldable pub send_records : List Read → Action Transit TransferError Bytes
    unfolding send_loop
    send_records file = send_loop 0 [] file

-- The receiving side: the connection, and the content handler with what was written to it.
pub record Download : Type 0 where
  pub transit : Transit
  pub content : Bytes
  pub writable : Bool

-- `remaining_size -= plaintext.len()`, which panics on overflow.
abbrev pub sub_size : ℕ → ℕ → Option ℕ
sub_size remaining n = if ltb remaining n then none else some (remaining - n)

module _ (c : Crypto) where
  unfoldable pub receive_block : Action Download TransferError Bytes
  unfolding receive_record
  receive_block d =
      let (o, t) = receive_record c d.transit in (from_transit o, record d { transit = t })

  unfoldable pub write_content : Bytes → Action Download TransferError (Unit {0})
  write_content b d =
      if d.writable
      then (ok tt, record d { content = d.content ++ b })
      else (err (io_error broken_pipe), d)

  -- The loop of `receive_records`. A record takes up at least four bytes of the stream, so a run ends
  -- or waits for more input before its fuel is spent.
  unfoldable pub receive_loop : ℕ → ℕ → Bytes → Action Download TransferError Bytes
  unfolding receive_block write_content
  receive_loop zero remaining_size hashed d = (pending, d)
  receive_loop (suc fuel) zero hashed d = (ok (c.sha256 hashed), d)
  receive_loop (suc fuel) (suc r) hashed d = after (receive_block d) λ plaintext. do
    write_content plaintext
    left ← expect (sub_size (suc r) (length plaintext))
    receive_loop fuel left (hashed ++ plaintext)

  unfoldable pub receive_records : ℕ → Action Download TransferError Bytes
  unfolding receive_loop
  receive_records filesize d = receive_loop (suc (length d.transit.socket.input)) filesize [] d

  unfoldable pub send_ack : Codec TransitAck → Bytes → Action Download TransferError (Unit {0})
  unfolding send_record
  send_ack json sum d =
      let (o, t) =
        send_record c (json.to_vec (record { ack = codes "ok"; sha256 = c.hex_encode sum }))
          d.transit in
      (from_transit o, record d { transit = t })

  unfoldable pub tcp_file_receive : Codec TransitAck → ℕ → Action Download TransferError (Unit {0})
  unfolding receive_records send_ack
  tcp_file_receive json filesize = do checksum ← receive_records filesize; send_ack json checksum
