-- ===== src/Core/Rendezvous/Setup.antt =====
-- `RendezvousServer` of src/core/rendezvous.rs: connecting, nameplates and mailboxes, and the end.
use magic_wormhole_rs.Common.{
  ℕ, [], Option, none, some, Bool, true, false, Bytes, Outcome, ok, err, panic, pending, Action,
  after, ◌>>=◌, ◌>>◌, return, fail, map, ◌⊎◌, inl, inr,
}
use magic_wormhole_rs.Common.Text.{codes}
use magic_wormhole_rs.Core.Names.{AppId, Mailbox, Mood, MySide, Nameplate}
use magic_wormhole_rs.Core.Messages.{
  InboundMessage, WelcomeMessage, PermissionRequired, HashcashPermission, welcome,
  submit_permission, hashcash, bind, allocate, claim, release, open_mailbox, close,
}
use magic_wormhole_rs.Core.Rendezvous.Wire.{
  Connection, WsError, RendezvousError, RendezvousReply, allocated_reply, claimed_reply,
  released_reply, closed_reply, protocol, login, io, first_not_welcome, invalid_message,
}
use magic_wormhole_rs.Core.Rendezvous.Receive.{Wire}
use magic_wormhole_rs.Core.Rendezvous.Receive
use magic_wormhole_rs.Core.Rendezvous.Machine.{MailboxMachine}
use magic_wormhole_rs.Core.Rendezvous.Server.{RendezvousServer, send_message, receive_reply}

-- The first message must be `welcome`.
unfoldable pub expect_welcome : InboundMessage → Action Wire RendezvousError WelcomeMessage
expect_welcome (welcome w) = return w
expect_welcome other = fail (protocol (first_not_welcome other))

-- `utils::hashcash` runs until it finds a stamp: `none` is a run that has not found one yet.
await_stamp : Option Bytes → Action Wire RendezvousError Bytes
await_stamp none w = (pending, w)
await_stamp (some stamp) w = (ok stamp, w)

-- The `match welcome.permission_required` of `connect`, on the fields of the permission.
permit_fields :
    (Bytes → ℕ → Option Bytes)
    → Option HashcashPermission
    → Bool
    → PermissionRequired
    → Action Wire RendezvousError (Unit {0})
unfolding await_stamp
permit_fields mint (some h) none_allowed p = do
  stamp ← await_stamp (mint h.resource h.bits)
  Receive.send_message (submit_permission (hashcash stamp))
permit_fields mint none true p = return tt
permit_fields mint none false p = fail (login (map (λ e. e.0) p.other))

permit :
    (Bytes → ℕ → Option Bytes) → Option PermissionRequired → Action Wire RendezvousError (Unit {0})
unfolding permit_fields
permit mint none = return tt
permit mint (some p) = permit_fields mint p.hashcash p.none_allowed p

-- `connect` once the websocket is open and the side drawn: the welcome, the permission, the bind.
-- `mint` is `utils::hashcash`.
unfoldable pub greet :
    (Bytes → ℕ → Option Bytes) → AppId → MySide → Action Wire RendezvousError (Option Bytes)
unfolding expect_welcome permit
greet mint appid side = do
  first ← Receive.receive_message_some
  w ← expect_welcome first
  permit mint w.permission_required
  Receive.send_message (bind appid side)
  return w.motd

connected :
    MySide
    → Outcome RendezvousError (Option Bytes) × Wire
    → Outcome RendezvousError (RendezvousServer × Option Bytes)
connected side (ok motd, w) =
    ok (record { connection = w.connection; state = none; side = side }, motd)
connected side (err e, w) = err e
connected side (panic, w) = panic
connected side (pending, w) = pending

-- `RendezvousServer::connect`, from the outcome of opening the websocket and the side drawn.
unfoldable pub connect :
    (Bytes → ℕ → Option Bytes)
    → AppId
    → MySide
    → Connection ⊎ WsError
    → Outcome RendezvousError (RendezvousServer × Option Bytes)
unfolding connected greet
connect mint appid side (inl c) =
    connected side (greet mint appid side (record { connection = c; queue = none }))
connect mint appid side (inr e) = err (io e)

unfoldable pub expect_allocated :
    RendezvousReply → Action RendezvousServer RendezvousError Nameplate
expect_allocated (allocated_reply n) = return n
expect_allocated other = fail (protocol (invalid_message (codes "allocated") other))

unfoldable pub expect_claimed : RendezvousReply → Action RendezvousServer RendezvousError Mailbox
expect_claimed (claimed_reply m) = return m
expect_claimed other = fail (protocol (invalid_message (codes "claimed") other))

unfoldable pub expect_released :
    RendezvousReply → Action RendezvousServer RendezvousError (Unit {0})
expect_released released_reply = return tt
expect_released other = fail (protocol (invalid_message (codes "released") other))

unfoldable pub expect_closed : RendezvousReply → Action RendezvousServer RendezvousError (Unit {0})
expect_closed closed_reply = return tt
expect_closed other = fail (protocol (invalid_message (codes "closed") other))

-- `assert!(self.state.is_none(), …)`
unfoldable pub assert_initial : Action RendezvousServer RendezvousError (Unit {0})
assert_initial s = elim s.state [ none ↦ (ok tt, s) | some m ↦ (panic, s) ]

-- `self.state = Some(MailboxMachine { … })`
unfoldable pub set_mailbox :
    Option Nameplate → Mailbox → Action RendezvousServer RendezvousError (Unit {0})
set_mailbox n m s = (
  ok tt,
  record s { state = some (record { nameplate = n; mailbox = m; queue = []; processed = [] }) },
)

-- `RendezvousServer::allocate_claim_open`
unfoldable pub allocate_claim_open : Action RendezvousServer RendezvousError (Nameplate × Mailbox)
unfolding assert_initial expect_allocated expect_claimed set_mailbox
allocate_claim_open = do
  assert_initial
  send_message allocate
  reply ← receive_reply
  nameplate ← expect_allocated reply
  send_message (claim nameplate)
  answer ← receive_reply
  mailbox ← expect_claimed answer
  send_message (open_mailbox mailbox)
  set_mailbox (some nameplate) mailbox
  return (nameplate, mailbox)

-- `RendezvousServer::claim_open`
unfoldable pub claim_open : Nameplate → Action RendezvousServer RendezvousError Mailbox
unfolding assert_initial expect_claimed set_mailbox
claim_open nameplate = do
  assert_initial
  send_message (claim nameplate)
  answer ← receive_reply
  mailbox ← expect_claimed answer
  send_message (open_mailbox mailbox)
  set_mailbox (some nameplate) mailbox
  return mailbox

-- `RendezvousServer::open_directly`
unfoldable pub open_directly : Mailbox → Action RendezvousServer RendezvousError (Unit {0})
unfolding assert_initial set_mailbox
open_directly mailbox = do
  assert_initial
  send_message (open_mailbox mailbox)
  set_mailbox none mailbox

unfoldable pub nameplate_in : Option MailboxMachine → Option Nameplate
nameplate_in none = none
nameplate_in (some m) = m.nameplate

unfoldable pub is_some : Option Nameplate → Bool
is_some none = false
is_some (some n) = true

-- `RendezvousServer::needs_nameplate_release`
unfoldable pub needs_nameplate_release : RendezvousServer → Bool
unfolding nameplate_in is_some
needs_nameplate_release s = is_some (nameplate_in s.state)

-- `self.state.…nameplate.clone()).expect(…)`
unfoldable pub expect_nameplate : Action RendezvousServer RendezvousError Nameplate
unfolding nameplate_in
expect_nameplate s = elim (nameplate_in s.state) [ none ↦ (panic, s) | some n ↦ (ok n, s) ]

-- `self.state.as_mut().unwrap().nameplate = None`
unfoldable pub clear_nameplate : Action RendezvousServer RendezvousError (Unit {0})
clear_nameplate s = elim s.state [
  | none ↦ (panic, s)
  | some m ↦ (ok tt, record s { state = some (record m { nameplate = none }) })
]

-- The request and its answer, in `release_nameplate` and in `shutdown`.
abbrev pub release_step : Nameplate → Action RendezvousServer RendezvousError (Unit {0})
release_step nameplate = do
  send_message (release nameplate)
  reply ← receive_reply
  expect_released reply

-- `RendezvousServer::release_nameplate`
unfoldable pub release_nameplate : Action RendezvousServer RendezvousError (Unit {0})
unfolding expect_nameplate expect_released clear_nameplate
release_nameplate = do nameplate ← expect_nameplate; release_step nameplate; clear_nameplate

unfoldable pub release_held : Option Nameplate → Action RendezvousServer RendezvousError (Unit {0})
unfolding expect_released
release_held none = return tt
release_held (some nameplate) = release_step nameplate

unfoldable pub close_mailbox :
    Option MailboxMachine → Mood → Action RendezvousServer RendezvousError (Unit {0})
unfolding release_held expect_closed
close_mailbox none mood = return tt
close_mailbox (some m) mood = do
  release_held m.nameplate
  send_message (close m.mailbox mood)
  reply ← receive_reply
  expect_closed reply

-- `self.connection.connection.close(None).await?`
unfoldable pub close_socket : Action RendezvousServer RendezvousError (Unit {0})
close_socket s = elim s.connection.close_fault [ none ↦ (ok tt, s) | some e ↦ (err (io e), s) ]

-- `RendezvousServer::shutdown`. It consumes the server, whose queue goes on taking what arrives.
unfoldable pub shutdown : Mood → Action RendezvousServer RendezvousError (Unit {0})
unfolding close_mailbox close_socket
shutdown mood s = after (close_mailbox s.state mood s) (λ _. close_socket)
