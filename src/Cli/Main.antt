-- ===== src/Cli/Main.antt =====
-- `main` of src/bin/main.rs from the matches of the arguments on.
use mathlib.Core.Option
use magic_wormhole_rs.Common.{
  ℕ, ◌*◌, ◌^◌, List, ◌++◌, Option, none, some, Bool, true, false, Bytes, err, Action, after, ◌>>=◌,
  ◌>>◌, ok_or, expect, ensure, ltb, if◌then◌else◌, inl, inr, ◌⊎◌,
}
use magic_wormhole_rs.Common.Decimal.{parse}
use magic_wormhole_rs.Common.Text.{codes}
use magic_wormhole_rs.Core.Code.{Code}
use magic_wormhole_rs.Core.Key.{Nonce}
use magic_wormhole_rs.Core.Wormhole.{Wormhole}
use magic_wormhole_rs.Transit.Hints.{RelayUrl}
use magic_wormhole_rs.Transit.Socket.{IoError}
use magic_wormhole_rs.Transfer.Session.{Session}
use magic_wormhole_rs.Transfer.Folder.{Node, plain_file, directory}
use magic_wormhole_rs.Cli.Terminal.{Terminal, print}
use magic_wormhole_rs.Cli.Paths.{PathBuf}
use magic_wormhole_rs.Cli.Paths
use magic_wormhole_rs.Cli.Desk.{
  CliError, no_file_name, does_not_exist, bad_number, exit_with, Files, Desk,
}
use magic_wormhole_rs.Cli.Connect.{Matches, Net, Words, parse_and_connect}
use magic_wormhole_rs.Cli.Receive.{receive}
use magic_wormhole_rs.Cli.Send.{Source, Task, Booth, Round, task_result, close_session, send_many}

-- What the program works on.
pub record World : Type 0 where
  pub terminal : Terminal
  pub files : Files
  pub spawned : List Task

-- A subcommand with its matches and its own arguments.
pub data Subcommand : Type 0 where
  send_command : Matches → PathBuf → Subcommand
  send_many_command : Matches → PathBuf → Bytes → Bytes → Subcommand
  receive_command : Matches → PathBuf → Option Bytes → Subcommand
  help_command : Subcommand

-- What a run takes from outside: the network, the words, the code that the user would enter, the
-- value of `file-name` in the matches of the program itself, the nonces of the transfer, what is at
-- the paths, and the rest of what `receive` and `send_many` take.
pub record Outside : Type 0 where
  pub net : Net
  pub words : Words
  pub entered : Option Bytes
  pub program_file_name : Option Bytes
  pub nonces : ℕ → Nonce
  pub source : Source
  pub set_zip : Bytes → Bytes
  pub others : Files → Files
  pub rounds : ℕ → Round
  pub show_duration : ℕ → Bytes

is_dir : Node ⊎ IoError → Bool
is_dir (inl (directory d folder)) = true
is_dir (inl (plain_file n reads)) = false
is_dir (inr e) = false

path_exists : Node ⊎ IoError → Bool
path_exists (inl node) = true
path_exists (inr e) = false

suffixed : Bool → Bytes → Bytes
suffixed d name = if d then name ++ codes ".tar" else name

-- The closure `file_name`.
unfoldable pub file_name_for : Option Bytes → Bool → PathBuf → Option Bytes
unfolding Paths.file_name suffixed
file_name_for (some name) is_dir path = some name
file_name_for none is_dir path = Option.map (suffixed is_dir) (Paths.file_name path)

-- `u64::from_str(…)? * 60`, which panics on overflow, in nanoseconds.
abbrev nanoseconds : ℕ → Option ℕ
nanoseconds minutes = if ltb (minutes * 60) (2 ^ 64) then some (minutes * 60 * 1000000000) else none

on_terminal : {A : Type 0} → Action Terminal CliError A → Action World CliError A
on_terminal f w = let (o, t) = f w.terminal in (o, record w { terminal = t })

on_booth : {A : Type 0} → Action Booth CliError A → Action World CliError A
on_booth f w =
    let (o, b) = f (record { terminal = w.terminal; spawned = w.spawned }) in
    (o, record w { terminal = b.terminal; spawned = b.spawned })

module _ (outside : Outside) where
  session : Wormhole → Session
  session wormhole = record { wormhole = wormhole; nonces = outside.nonces; drawn = 0 }

  connected : Matches → Bool → Action World CliError (Wormhole × Code × RelayUrl)
  unfolding on_terminal parse_and_connect
  connected matches is_send =
      on_terminal (parse_and_connect outside.net outside.words outside.entered matches is_send)

  -- `file_name(file_path)?`
  named : PathBuf → Action World CliError Bytes
  unfolding file_name_for is_dir
  named file_path =
      ok_or
        (file_name_for outside.program_file_name (is_dir (outside.source.open_path file_path))
          file_path)
        no_file_name

  -- Sending, and closing the wormhole.
  send_and_close : Task → Action World CliError (Unit {0})
  unfolding task_result session
  send_and_close task w = ((task_result outside.source task (session task.wormhole)).0, w)

  unfoldable pub main_send : Matches → PathBuf → Action World CliError (Unit {0})
  unfolding named path_exists connected send_and_close
  main_send matches file_path = do
    file_name ← named file_path
    ensure (path_exists (outside.source.open_path file_path)) (does_not_exist file_path)
    (wormhole, code, relay_server) ← connected matches true
    send_and_close (record {
      wormhole = wormhole;
      url = relay_server;
      file_path = file_path;
      file_name = file_name;
    })

  unfoldable pub main_send_many :
      Matches → PathBuf → Bytes → Bytes → Action World CliError (Unit {0})
  unfolding connected named on_booth send_many
  main_send_many matches file_path minutes tries = do
    (wormhole, code, relay_server) ← connected matches true
    limit ← ok_or (parse (2 ^ 64) minutes) bad_number
    timeout ← expect (nanoseconds limit)
    max_tries ← ok_or (parse (2 ^ 64) tries) bad_number
    file_name ← named file_path
    on_booth (
        send_many
          (record {
            relay_server = relay_server;
            code = code;
            file_path = file_path;
            file_name = file_name;
            max_tries = max_tries;
            timeout = timeout;
            show_timeout = outside.show_duration timeout;
          })
          outside.rounds wormhole)

  -- `receive`, and closing the wormhole.
  receive_and_close :
      RelayUrl → Wormhole → PathBuf → Option Bytes → Action World CliError (Unit {0})
  unfolding session receive close_session
  receive_and_close relay_server wormhole file_path file_name w =
      let desk : Desk = record {
        session = session wormhole;
        terminal = w.terminal;
        files = w.files;
      } in
      let (o, d) =
        receive outside.source.crypto (outside.source.env relay_server) outside.set_zip
          outside.others file_path file_name desk in
      after (o, record w { terminal = d.terminal; files = d.files })
        λ _ v. ((close_session d.session).0, v)

  unfoldable pub main_receive : Matches → PathBuf → Option Bytes → Action World CliError (Unit {0})
  unfolding connected receive_and_close
  main_receive matches file_path file_name = do
    (wormhole, code, relay_server) ← connected matches false
    receive_and_close relay_server wormhole file_path file_name

  -- The branches of `main`.
  unfoldable pub main : Subcommand → Action World CliError (Unit {0})
  unfolding main_send main_send_many main_receive print
  main (send_command matches file_path) w = main_send matches file_path w
  main (send_many_command matches file_path minutes tries) w =
      main_send_many matches file_path minutes tries w
  main (receive_command matches file_path file_name) w = main_receive matches file_path file_name w
  main help_command w =
      (err (exit_with 1), record w { terminal = print (codes "Use --help to get help") w.terminal })
