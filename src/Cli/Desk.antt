-- ===== src/Cli/Desk.antt =====
-- What the subcommands of src/bin/main.rs work on: the transfer's session, the terminal and the files.
use magic_wormhole_rs.Common.{
  ℕ, List, [], ◌∷◌, Option, none, some, Bool, true, false, Bytes, Outcome, ok, err, panic, pending,
  Action, bytes_eq, if◌then◌else◌,
}
use magic_wormhole_rs.Core.Wormhole.{WormholeError}
use magic_wormhole_rs.Transit.Socket.{IoError, already_exists}
use magic_wormhole_rs.Transfer.Messages.{TransferError}
use magic_wormhole_rs.Transfer.Session.{Session}
use magic_wormhole_rs.Cli.Terminal.{Terminal}
use magic_wormhole_rs.Cli.Paths.{PathBuf}

-- The errors that `eyre` carries.
pub data CliError : Type 0 where
  transfer_failed : TransferError → CliError
  wormhole_failed : WormholeError → CliError
  io_failed : IoError → CliError
  no_file_name : CliError
  does_not_exist : PathBuf → CliError
  bad_number : CliError
  exit_with : ℕ → CliError

-- The files with their content, the first entry of a path being the one that counts, and the error
-- of opening a path for writing that the system would give otherwise.
pub record Files : Type 0 where
  pub entries : List (PathBuf × Bytes)
  pub denied : PathBuf → Option IoError

unfoldable pub content_in : List (PathBuf × Bytes) → PathBuf → Option Bytes
content_in [] path = none
content_in ((p, b) ∷ rest) path =
    let other = content_in rest path in if bytes_eq p path then some b else other

unfoldable pub content_of : Files → PathBuf → Option Bytes
unfolding content_in
content_of files path = content_in files.entries path

abbrev pub is_some : Option Bytes → Bool
is_some none = false
is_some (some b) = true

-- `Path::exists`
unfoldable pub exists : PathBuf → Files → Bool
unfolding content_of
exists path files = is_some (content_of files path)

-- A file with this content at a path.
abbrev pub put : PathBuf → Bytes → Files → Files
put path content files = record files { entries = (path, content) ∷ files.entries }

pub record Desk : Type 0 where
  pub session : Session
  pub terminal : Terminal
  pub files : Files

-- `?` on a call of the transfer.
abbrev pub from_transfer : {A : Type 0} → Outcome TransferError A → Outcome CliError A
from_transfer (ok a) = ok a
from_transfer (err e) = err (transfer_failed e)
from_transfer panic = panic
from_transfer pending = pending

unfoldable pub in_session : {A : Type 0} → Action Session TransferError A → Action Desk CliError A
in_session f d = let (o, s) = f d.session in (from_transfer o, record d { session = s })

unfoldable pub in_terminal : {A : Type 0} → Action Terminal CliError A → Action Desk CliError A
in_terminal f d = let (o, t) = f d.terminal in (o, record d { terminal = t })

-- `OpenOptions` with `write` and `create_new`: the file must not be there.
unfoldable pub open_new : PathBuf → Files → Outcome CliError (Unit {0}) × Files
unfolding exists
open_new path files =
    if exists path files
    then (err (io_failed already_exists), files)
    else elim (files.denied path) [
      | none ↦ (ok tt, put path [] files)
      | some e ↦ (err (io_failed e), files)
    ]

-- `OpenOptions` with `write`, `create` and `truncate`.
unfoldable pub open_truncated : PathBuf → Files → Outcome CliError (Unit {0}) × Files
open_truncated path files = elim (files.denied path) [
  | none ↦ (ok tt, put path [] files)
  | some e ↦ (err (io_failed e), files)
]
