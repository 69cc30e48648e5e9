-- ===== src/Cli/Connect.antt =====
-- `parse_and_connect` of src/bin/main.rs, and what it prints.
use magic_wormhole_rs.Common.{
  ℕ, ◌^◌, List, ◌++◌, Option, none, some, Bool, Bytes, Outcome, ok, err, panic, pending, Action,
  after, ◌>>=◌, ◌>>◌, return, expect, ◌⊎◌, if◌then◌else◌,
}
use magic_wormhole_rs.Common.Decimal.{parse}
use magic_wormhole_rs.Common.Text.{codes}
use magic_wormhole_rs.Core.Names.{AppConfig, MySide}
use magic_wormhole_rs.Core.Json.{object, end}
use magic_wormhole_rs.Core.Messages.{Value}
use magic_wormhole_rs.Core.Code.{Code}
use magic_wormhole_rs.Core.Wordlist.{choose_words, default_wordlist}
use magic_wormhole_rs.Core.Rendezvous.Wire.{Connection, WsError}
use magic_wormhole_rs.Core.Rendezvous.Server.{RendezvousServer}
use magic_wormhole_rs.Core.Wormhole.{Wormhole, WormholeError}
use magic_wormhole_rs.Core.Connect as Connect
use magic_wormhole_rs.Core.Connect.{
  WormholeWelcome, connect_with_code, connect_without_code, connect_custom,
}
use magic_wormhole_rs.Transit.Hints.{RelayUrl}
use magic_wormhole_rs.Transit.Url.{from_str, UrlError}
use magic_wormhole_rs.Cli.Terminal.{Terminal, print}
use magic_wormhole_rs.Cli.Desk.{CliError, wormhole_failed}

-- `DEFAULT_RENDEZVOUS_SERVER` and `DEFAULT_RELAY_SERVER`
abbrev pub default_rendezvous_server : Bytes
default_rendezvous_server = codes "ws://relay.magic-wormhole.io:4000/v1"

abbrev pub default_relay_server : Bytes
default_relay_server = codes "tcp:transit.magic-wormhole.io:4001"

-- `APP_CONFIG` of src/transfer.rs; the version is an empty struct, an empty object as JSON.
abbrev pub app_config : AppConfig Value
app_config = record {
  id = codes "lothar.com/wormhole/text-or-file-xfer";
  rendezvous_url = default_rendezvous_server;
  app_version = object end;
}

-- `AppConfig::rendezvous_url`
abbrev pub rendezvous_url : Bytes → AppConfig Value → AppConfig Value
rendezvous_url url config = record config { rendezvous_url = url }

-- The matches of a subcommand that `parse_and_connect` reads.
pub record Matches : Type 0 where
  pub relay_server : Option Bytes
  pub rendezvous_server : Option Bytes
  pub code : Option Bytes
  pub code_length : Bytes

-- One connection to a rendezvous server: what the handshake draws and takes from the crates, how
-- hashcash is minted, and the websocket that opening a URL gives.
pub record Net : Type 0 where
  pub env : Connect.Env
  pub mint : Bytes → ℕ → Option Bytes
  pub side : MySide
  pub socket : Bytes → Connection ⊎ WsError

-- The two lists of words, and the numbers that choosing words draws.
pub record Words : Type 0 where
  pub even : List Bytes
  pub odd : List Bytes
  pub draw : ℕ → ℕ

or_default : Bytes → Option Bytes → Bytes
or_default d none = d
or_default d (some x) = x

relay_of : Outcome UrlError RelayUrl → Option RelayUrl
relay_of (ok url) = some url
relay_of _ = none

abbrev pub from_wormhole : {A : Type 0} → Outcome WormholeError A → Action Terminal CliError A
from_wormhole (ok a) t = (ok a, t)
from_wormhole (err e) t = (err (wormhole_failed e), t)
from_wormhole panic t = (panic, t)
from_wormhole pending t = (pending, t)

say : Bytes → Action Terminal CliError (Unit {0})
unfolding print
say text t = (ok tt, print text t)

-- `print_welcome`
unfoldable pub print_welcome : WormholeWelcome → Action Terminal CliError (Unit {0})
unfolding say
print_welcome welcome = elim welcome.motd [
  | none ↦ return tt
  | some motd ↦ say (codes "Got welcome from server: " ++ motd)
]

-- `sender_print_code`
unfoldable pub sender_print_code : Code → Action Terminal CliError (Unit {0})
unfolding say
sender_print_code code = do
  say (codes "This wormhole's code is: " ++ code)
  say (codes "On the other computer, please run:\n")
  say (codes "wormhole receive " ++ (code ++ codes "\n"))

module _ (net : Net) where
  -- `connect_with_code` with a configuration.
  unfoldable pub reconnect :
      AppConfig Value → Code → Action Terminal CliError (WormholeWelcome × Wormhole)
  unfolding connect_with_code
  reconnect config code =
      from_wormhole
        (connect_with_code net.env net.mint net.side (net.socket config.rendezvous_url) config code)

  -- `connect_without_code` with a configuration.
  allocate :
      Words → AppConfig Value → ℕ → Action Terminal CliError (WormholeWelcome × RendezvousServer)
  unfolding connect_without_code choose_words default_wordlist
  allocate words config numwords = do
    chosen ← expect (choose_words words.draw (default_wordlist words.even words.odd numwords))
    from_wormhole (
        connect_without_code net.env net.mint net.side (net.socket config.rendezvous_url) config
          chosen)

  -- `connector.await`
  finish : AppConfig Value → Code → RendezvousServer → Action Terminal CliError Wormhole
  unfolding connect_custom
  finish config code server =
      from_wormhole ((connect_custom net.env config.id code config.app_version server).0)

  with_code : AppConfig Value → Bool → Code → Action Terminal CliError (Wormhole × Code)
  unfolding sender_print_code reconnect print_welcome
  with_code config is_send code = do
    (if is_send then sender_print_code code else return tt)
    (server_welcome, wormhole) ← reconnect config code
    print_welcome server_welcome
    return (wormhole, server_welcome.code)

  without_code : Words → AppConfig Value → Bool → Bytes → Action Terminal CliError (Wormhole × Code)
  unfolding allocate print_welcome sender_print_code finish
  without_code words config is_send code_length = do
    numwords ← expect (parse (2 ^ 64) code_length)
    (server_welcome, server) ← allocate words config numwords
    print_welcome server_welcome
    (if is_send then sender_print_code server_welcome.code else return tt)
    wormhole ← finish config server_welcome.code server
    return (wormhole, server_welcome.code)

  -- The code of the arguments, or what the receiving user enters; `entered` is `enter_code`'s result,
  -- `none` being its error.
  unfoldable pub code_for : Option Bytes → Matches → Bool → Action Terminal CliError (Option Code)
  code_for entered matches is_send = elim matches.code [
    | some code ↦ return (some code)
    | none ↦
        if is_send then return none else (λ t. after (expect entered t) λ code. return (some code))
  ]

  connect_by :
      Words
      → AppConfig Value
      → Bool
      → Bytes
      → Option Code
      → Action Terminal CliError (Wormhole × Code)
  unfolding with_code without_code
  connect_by words config is_send code_length (some code) = with_code config is_send code
  connect_by words config is_send code_length none = without_code words config is_send code_length

  -- `parse_and_connect`
  unfoldable pub parse_and_connect :
      Words → Option Bytes → Matches → Bool → Action Terminal CliError (Wormhole × Code × RelayUrl)
  unfolding relay_of from_str or_default code_for connect_by say
  parse_and_connect words entered matches is_send =
      let config =
        rendezvous_url (or_default default_rendezvous_server matches.rendezvous_server)
          app_config in
      do
        relay_server ←
            expect (relay_of (from_str (or_default default_relay_server matches.relay_server)))
        code ← code_for entered matches is_send
        (wormhole, used) ← connect_by words config is_send matches.code_length code
        say (codes "Successfully connected to peer.")
        return (wormhole, used, relay_server)
