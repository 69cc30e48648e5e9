-- ===== src/Transfer/Folder.antt =====
-- `send_folder` and `send_file_or_folder` of src/transfer.rs. What the tar builder writes, and what
-- the reader of the ring buffer gets, are given.
pub mod Skew
pub mod Short
use mathlib.Core.Option
use magic_wormhole_rs.Common.{
  ◌⊎◌, inl, inr, if◌then◌else◌, ℕ, ◌+◌, List, [], ◌∷◌, ◌++◌, Option, none, some, Bool, true, false,
  Bytes, Action, after, ◌>>=◌, ◌>>◌, return, fail, crash, expect, assert, length, take, bytes_eq,
}
use magic_wormhole_rs.Core.Crypto.{Crypto}
use magic_wormhole_rs.Transit.Record.{Transit}
use magic_wormhole_rs.Transfer.Messages.{TransferError, filesystem_skew, io_error, new_offer_file}
use magic_wormhole_rs.Transit.Socket.{IoError}
use magic_wormhole_rs.Transfer.Records.{Read, send_records, add_size}
use magic_wormhole_rs.Transfer.Session.{
  Session, Env, Peer, tell, hear, complain, send_transit, receive_transit, reported,
}
use magic_wormhole_rs.Transfer.Send.{acknowledged, lead, receive_transit_ack, send_file}

-- The hasher is what it was given.
pub record CountWrite : Type 0 where
  pub inner : Bytes
  pub count : ℕ

-- `CountWrite::write` onto a hasher, which takes all of it; the count panics on overflow.
unfoldable pub count_write : Bytes → CountWrite → Option CountWrite
count_write buf w = elim (add_size w.count (length buf)) [
  | none ↦ none
  | some count ↦ some (record { inner = w.inner ++ buf; count = count })
]

unfoldable pub count_all : List Bytes → CountWrite → Option CountWrite
unfolding count_write
count_all [] w = some w
count_all (buf ∷ bufs) w = elim (count_write buf w) [ none ↦ none | some v ↦ count_all bufs v ]

pub record BroadcastWriter : Type 0 where
  pub primary : Bytes
  pub secondary : Bytes

-- One write: the data, and how many bytes of it the ring buffer takes; `none` is its error.
abbrev pub Write : Type 0
Write = Bytes × Option ℕ

-- `BroadcastWriter::write`, `none` being the panic of `unwrap`.
unfoldable pub broadcast : Write → BroadcastWriter → Option BroadcastWriter
broadcast (buf, none) w = none
broadcast (buf, some n) w =
    some (record { primary = w.primary ++ take n buf; secondary = w.secondary ++ take n buf })

unfoldable pub broadcast_all : List Write → BroadcastWriter → Option BroadcastWriter
unfolding broadcast
broadcast_all [] w = some w
broadcast_all (x ∷ xs) w = elim (broadcast x w) [ none ↦ none | some v ↦ broadcast_all xs v ]

-- The two passes of the tar builder over a folder, as the writes that they make, `none` being the
-- panic of an `unwrap` on the builder; and the reads from the ring buffer during the second.
pub record Folder : Type 0 where
  pub measured : Option (List Bytes)
  pub streamed : Option (List Write)
  pub reads : List Read

abbrev pub nothing_counted : CountWrite
nothing_counted = record { inner = []; count = 0 }

abbrev pub nothing_written : BroadcastWriter
nothing_written = record { primary = []; secondary = [] }

module _ (c : Crypto) where
  -- The first pass: the length of the archive and its checksum.
  unfoldable pub measure : Folder → Option (ℕ × Bytes)
  unfolding count_all
  measure folder = elim folder.measured [
    | none ↦ none
    | some bufs ↦ Option.map (λ w. (w.count, c.sha256 w.inner)) (count_all bufs nothing_counted)
  ]

  -- The second pass: the checksum of what went into the ring buffer.
  unfoldable pub file_sender : Folder → Option Bytes
  unfolding broadcast_all
  file_sender folder = elim folder.streamed [
    | none ↦ none
    | some xs ↦ Option.map (λ w. c.sha256 w.secondary) (broadcast_all xs nothing_written)
  ]

-- What stands at a path: a file of some size, and what reading it gives, or a folder.
pub data Node : Type 0 where
  plain_file : ℕ → List Read → Node
  directory : Bool → Folder → Node

module _ (c : Crypto) (env : Env) where
  -- `send_folder` up to the connection: the peer, the length and the checksum of the first pass.
  unfoldable pub offer_folder : Bytes → Folder → Action Session TransferError (Peer × ℕ × Bytes)
  unfolding send_transit measure tell receive_transit hear acknowledged
  offer_folder folder_name folder = do
    send_transit c env
    (size, sha256sum_initial) ← expect (measure c folder)
    tell c env (new_offer_file folder_name size)
    peer ← receive_transit c env
    fileack_msg ← hear c env
    acknowledged c env fileack_msg
    return (peer, size, sha256sum_initial)

  wait_for_ack : Bytes → Transit → Action Session TransferError (Unit {0})
  unfolding receive_transit_ack
  wait_for_ack sum t s = let (a, u) = receive_transit_ack c env.ack_json sum t in (a, s)

  -- The checksum of the second pass against that of the first, and the peer's acknowledgement.
  unfoldable pub compare_sums :
      Folder → Bytes → Bytes → Transit → Action Session TransferError (Unit {0})
  unfolding file_sender complain wait_for_ack
  compare_sums folder sha256sum_initial sum t = do
    sha256sum ← expect (file_sender c folder)
    (if bytes_eq sha256sum sha256sum_initial
        then wait_for_ack sum t
        else complain c env filesystem_skew)

  -- The records, and what follows them.
  unfoldable pub send_archive :
      ℕ → Bytes → Folder → Transit → Action Session TransferError (Unit {0})
  unfolding send_records reported compare_sums
  send_archive size sha256sum_initial folder t s =
      let (o, u) = send_records c size folder.reads t in
      after (reported c env o s) λ sum. compare_sums folder sha256sum_initial sum u

  -- `send_folder`; `is_dir` is what the path turns out to be then.
  unfoldable pub send_folder : Bool → Bytes → Folder → Action Session TransferError (Unit {0})
  unfolding offer_folder lead send_archive
  send_folder is_dir folder_name folder = do
    assert is_dir
    (peer, size, sha256sum_initial) ← offer_folder folder_name folder
    t ← lead c env peer
    send_archive size sha256sum_initial folder t

  -- `send_file_or_folder`, on what `File::open` and `metadata` give for the path; `inr` is their error.
  unfoldable pub send_file_or_folder :
      Node ⊎ IoError → Bytes → Action Session TransferError (Unit {0})
  unfolding send_file send_folder
  send_file_or_folder (inl (plain_file size file)) file_name = send_file c env file_name size file
  send_file_or_folder (inl (directory is_dir folder)) file_name =
      send_folder is_dir file_name folder
  send_file_or_folder (inr e) file_name = fail (io_error e)
