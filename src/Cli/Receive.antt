-- ===== src/Cli/Receive.antt =====
-- `receive` of src/bin/main.rs.

pub mod Safety
use magic_wormhole_rs.Common.{
  List, [], ◌∷◌, ◌++◌, Option, none, some, Bool, true, false, Bytes, Outcome, Action, after, ◌>>=◌,
  ◌>>◌, return, ok_or, if◌then◌else◌,
}
use magic_wormhole_rs.Common.Decimal.{to_string}
use magic_wormhole_rs.Common.Text.{codes}
use magic_wormhole_rs.Core.Crypto.{Crypto}
use magic_wormhole_rs.Transfer.Session.{Env}
use magic_wormhole_rs.Transfer.Receive.{ReceiveRequest, request_file, accept, reject}
use magic_wormhole_rs.Cli.Terminal.{ask_user}
use magic_wormhole_rs.Cli.Paths.{PathBuf, file_name, join}
use magic_wormhole_rs.Cli.Desk.{
  Desk, CliError, no_file_name, Files, exists, put, in_session, in_terminal, open_new,
  open_truncated, from_transfer,
}

-- The two questions.
unfoldable pub receive_question : ReceiveRequest → Bytes
receive_question req =
    codes "Receive file '"
    ++ (req.filename ++ (codes "' (size: " ++ (to_string req.filesize ++ codes " bytes)?")))

unfoldable pub override_question : PathBuf → Bytes
override_question path = codes "Override existing file " ++ (path ++ codes "?")

-- `file_name.or_else(|| req.filename.file_name())`
unfoldable pub chosen_name : Option Bytes → ReceiveRequest → Option Bytes
unfolding file_name
chosen_name none req = file_name req.filename
chosen_name (some name) req = some name

-- `set_zip` is `PathBuf::set_extension("zip")`; `others` is what other programs do to the files
-- between the test and the opening.
module _ (c : Crypto) (env : Env) (set_zip : Bytes → Bytes) (others : Files → Files) where
  open_file :
      (PathBuf → Files → Outcome CliError (Unit {0}) × Files)
      → PathBuf
      → Action Desk CliError (Unit {0})
  open_file how path d = let (o, fs) = how path (others d.files) in (o, record d { files = fs })

  -- `req.accept(on_progress, &mut file)`, the file having just been emptied.
  accept_into : PathBuf → ReceiveRequest → Action Desk CliError (Unit {0})
  unfolding accept
  accept_into path req d =
      let (o, (s, content)) = accept c env req (d.session, []) in
      (from_transfer o, record d { session = s; files = put path content d.files })

  create : PathBuf → ReceiveRequest → Action Desk CliError (Unit {0})
  unfolding open_file open_new accept_into
  create path req = do open_file open_new path; accept_into path req

  overwrite : PathBuf → ReceiveRequest → Action Desk CliError (Unit {0})
  unfolding open_file open_truncated accept_into
  overwrite path req = do open_file open_truncated path; accept_into path req

  reject_it : Action Desk CliError (Unit {0})
  unfolding in_session reject
  reject_it = in_session (reject c env)

  confirm_override : PathBuf → ReceiveRequest → Action Desk CliError (Unit {0})
  unfolding in_terminal ask_user override_question overwrite reject_it
  confirm_override path req = do
    yes_please ← in_terminal (ask_user (override_question path) false)
    (if yes_please then overwrite path req else reject_it)

  store : PathBuf → ReceiveRequest → Action Desk CliError (Unit {0})
  unfolding create confirm_override exists
  store path req d = (if exists path d.files then confirm_override path req else create path req) d

  accept_offer : PathBuf → Option Bytes → ReceiveRequest → Action Desk CliError (Unit {0})
  unfolding chosen_name join store
  accept_offer target_dir renamed req = do
    name ← ok_or (chosen_name renamed req) no_file_name
    store (join target_dir name) req

  -- `receive`
  unfoldable pub receive : PathBuf → Option Bytes → Action Desk CliError (Unit {0})
  unfolding in_session request_file in_terminal ask_user receive_question accept_offer reject_it
  receive target_dir renamed = do
    req ← in_session (request_file c env set_zip)
    wanted ← in_terminal (ask_user (receive_question req) true)
    (if wanted then accept_offer target_dir renamed req else reject_it)
