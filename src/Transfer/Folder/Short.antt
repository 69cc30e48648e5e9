-- ===== src/Transfer/Folder/Short.antt =====
-- A ring buffer that runs empty before the archive is through, in `send_folder` of src/transfer.rs.
use magic_wormhole_rs.Common.{
  ℕ, ◌<◌, ◌≢◌, arith, ◌≡◌, refl, List, [], ◌∷◌, some, true, false, Bytes, ok, err, length, ltb,
  ◌==◌, lt→ltb,
}
use magic_wormhole_rs.Core.Crypto.{Crypto}
use magic_wormhole_rs.Transit.Record.{Transit}
use magic_wormhole_rs.Transfer.Messages.{file_size}
use magic_wormhole_rs.Transfer.Records.{
  Read, block, send_records, send_loop, send_block, finish, add_size,
}
use magic_wormhole_rs.Transfer.Session.{Session, Env, reported}
use magic_wormhole_rs.Transfer.Folder.{Folder, send_archive}

add_size-first : (n : ℕ) → n < 4096 → add_size 0 n ≡ some n
add_size-first n short = ground (arith, short)

send_loop-Short :
    (c : Crypto) (size : ℕ) (b : Bytes) (more : List Read) (t u : Transit)
    → send_block c b t ≡ (ok tt, u)
    → length b < 4096
    → length b ≢ size
    → send_loop c size 0 [] (block b ∷ more) t ≡ (err (file_size (length b) size), u)
unfolding send_loop finish
send_loop-Short c size b more t u e short wrong =
    let fits : add_size 0 (length b) ≡ some (length b) = add_size-first (length b) short in
    let small : ltb (length b) 4096 ≡ true = lt→ltb (length b) 4096 short in
    let differs : (length b == size) ≡ false = ground (arith, wrong) in
    rw (e, fits, small, differs) refl

-- The record of a read that is short of 4096 bytes is taken for the last one: where it is not, and
-- its record is sent, the transfer ends with an error of the size, whatever the ring buffer would
-- give after it, and the peer is not told.
pub send_archive-Short :
    (c : Crypto) (env : Env) (size : ℕ) (initial b : Bytes) (more : List Read) (folder : Folder)
    (t u : Transit) (s : Session)
    → folder.reads ≡ block b ∷ more
    → send_block c b t ≡ (ok tt, u)
    → length b < 4096
    → length b ≢ size
    → send_archive c env size initial folder t s ≡ (err (file_size (length b) size), s)
unfolding send_archive send_records reported
send_archive-Short c env size initial b more folder t u s r e short wrong =
    rw (r, send_loop-Short c size b more t u e short wrong) refl
