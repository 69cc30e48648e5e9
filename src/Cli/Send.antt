-- ===== src/Cli/Send.antt =====
-- `send` and `send_many` of src/bin/main.rs.
pub mod Count
use magic_wormhole_rs.Common.{
  ℕ, zero, suc, ◌+◌, List, [], ◌∷◌, ◌++◌, Option, none, some, Bool, true, false, Bytes, Outcome, ok,
  err, panic, pending, Action, after, ◌>>=◌, ◌>>◌, return, expect, ltb, ◌⊎◌, if◌then◌else◌,
}
use magic_wormhole_rs.Common.Text.{codes}
use magic_wormhole_rs.Core.Crypto.{Crypto}
use magic_wormhole_rs.Core.Code.{Code}
use magic_wormhole_rs.Core.Key.{Nonce}
use magic_wormhole_rs.Core.Wormhole.{Wormhole, WormholeError, close}
use magic_wormhole_rs.Transit.Socket.{IoError}
use magic_wormhole_rs.Transit.Hints.{RelayUrl}
use magic_wormhole_rs.Transfer.Messages.{TransferError, wormhole_error}
use magic_wormhole_rs.Transfer.Records.{add_size}
use magic_wormhole_rs.Transfer.Session.{Session, Env}
use magic_wormhole_rs.Transfer.Folder.{Node, send_file_or_folder}
use magic_wormhole_rs.Cli.Terminal.{Terminal, print}
use magic_wormhole_rs.Cli.Paths.{PathBuf}
use magic_wormhole_rs.Cli.Desk.{CliError, wormhole_failed, from_transfer}
use magic_wormhole_rs.Cli.Connect.{Net, app_config, reconnect}

-- What sending takes from outside: the crates, the transfer's surroundings for a relay, and what
-- `File::open` and `metadata` give for a path.
pub record Source : Type 0 where
  pub crypto : Crypto
  pub env : RelayUrl → Env
  pub open_path : PathBuf → Node ⊎ IoError

closed : Outcome WormholeError (Unit {0}) → Outcome CliError (Unit {0})
closed (ok a) = ok tt
closed (err e) = err (wormhole_failed e)
closed panic = panic
closed pending = pending

-- `wormhole.close().await?`
unfoldable pub close_session : Action Session CliError (Unit {0})
unfolding close closed
close_session s = let (o, w) = close s.wormhole in (closed o, record s { wormhole = w })

-- `send`; the progress bar is left out.
unfoldable pub send : Source → RelayUrl → PathBuf → Bytes → Action Session CliError (Unit {0})
unfolding send_file_or_folder
send source relay_server file_path file_name s =
    let (o, t) =
      send_file_or_folder source.crypto (source.env relay_server) (source.open_path file_path)
        file_name s in
    (from_transfer o, t)

-- A task that `send_in_background` spawns.
pub record Task : Type 0 where
  pub wormhole : Wormhole
  pub url : RelayUrl
  pub file_path : PathBuf
  pub file_name : Bytes

-- The body of a task up to its result.
unfoldable pub task_result : Source → Task → Action Session CliError (Unit {0})
unfolding send close_session
task_result source task = do send source task.url task.file_path task.file_name; close_session

-- What a task prints at its end; `display` is the text of an error.
unfoldable pub report : (CliError → Bytes) → Outcome CliError (Unit {0}) → Terminal → Terminal
unfolding print
report display (ok a) = print (codes "Successfully sent file to peer")
report display (err e) = print (codes "Send failed, " ++ display e)
report display panic = λ t. t
report display pending = λ t. t

-- A task run to its end.
unfoldable pub run_task : Source → (CliError → Bytes) → (ℕ → Nonce) → Task → Terminal → Terminal
unfolding task_result report
run_task source display nonces task =
    report display
      (task_result source task (record { wormhole = task.wormhole; nonces = nonces; drawn = 0 })).0

-- What `send_many` works on: the terminal, and the tasks spawned so far.
pub record Booth : Type 0 where
  pub terminal : Terminal
  pub spawned : List Task

-- `send_in_background`, its parameters in the order in which it declares them.
unfoldable pub send_in_background :
    RelayUrl → Bytes → PathBuf → Wormhole → Action Booth CliError (Unit {0})
unfolding print
send_in_background url file_name file_path wormhole b = (
  ok tt,
  record {
    terminal = print (codes "Sending file to peer") b.terminal;
    spawned =
        b.spawned
        ++ (record { wormhole = wormhole; url = url; file_path = file_path; file_name = file_name }
            ∷ []);
  },
)

-- The arguments of `send_many`; times are in nanoseconds, and `show_timeout` is the timeout as text.
pub record Order : Type 0 where
  pub relay_server : RelayUrl
  pub code : Code
  pub file_path : PathBuf
  pub file_name : Bytes
  pub max_tries : ℕ
  pub timeout : ℕ
  pub show_timeout : Bytes

-- What one round of the loop finds: the time elapsed, and the rendezvous server.
pub record Round : Type 0 where
  pub elapsed : ℕ
  pub net : Net

unfoldable pub on_terminal : {A : Type 0} → Action Terminal CliError A → Action Booth CliError A
on_terminal f b = let (o, t) = f b.terminal in (o, record b { terminal = t })

stop : Bytes → Action Booth CliError (Unit {0})
unfolding print
stop text b = (ok tt, record b { terminal = print text b.terminal })

module _ (order : Order) where
  -- The arguments as they stand in the two calls.
  unfoldable pub launch : Wormhole → Action Booth CliError (Unit {0})
  unfolding send_in_background
  launch wormhole = send_in_background order.relay_server order.file_path order.file_name wormhole

  -- One more connection and task, and then the rounds after it.
  another : Round → Action Booth CliError (Unit {0}) → Action Booth CliError (Unit {0})
  unfolding on_terminal reconnect launch
  another round again = do
    (welcome, wormhole) ← on_terminal (reconnect round.net app_config order.code)
    launch wormhole
    again

  unfoldable pub one_round :
      Round → ℕ → Action Booth CliError (Unit {0}) → Action Booth CliError (Unit {0})
  unfolding stop another
  one_round round tries again =
      if ltb round.elapsed order.timeout
      then (if ltb order.max_tries tries
          then stop (codes "Max number of tries reached, we won't accept any new connections now.")
          else another round again)
      else stop
          (order.show_timeout ++ codes " have elapsed, we won't accept any new connections now.")

  -- The loop of `send_many` from a number of tries on; the range panics on overflow.
  unfoldable pub many_loop : (ℕ → Round) → ℕ → ℕ → Action Booth CliError (Unit {0})
  unfolding one_round
  many_loop rounds zero tries b = (pending, b)
  many_loop rounds (suc fuel) tries b =
      let again = many_loop rounds fuel (suc tries) in
      after (expect (add_size tries 1) b) λ next. one_round (rounds tries) tries again

  -- `send_many`: the loop comes to its end within `max_tries + 2` rounds.
  unfoldable pub send_many : (ℕ → Round) → Wormhole → Action Booth CliError (Unit {0})
  unfolding launch many_loop
  send_many rounds wormhole = do launch wormhole; many_loop rounds (suc (suc order.max_tries)) 0
