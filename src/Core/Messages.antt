-- ===== src/Core/Messages.antt =====
-- src/core/server_messages.rs: what client and rendezvous server say to each other. How a message is
-- written as JSON, and read, is in the child modules.
pub mod Encoding
pub mod Decoding
pub mod Relayed
pub mod Lenient
pub mod Reads
pub mod Fields
pub mod Exact
pub mod Distinct
use magic_wormhole_rs.Common.{ℕ, List, Option, none, some, Bool, true, false, Bytes, map}
use magic_wormhole_rs.Core.Json.{Json}
use magic_wormhole_rs.Core.Names.{AppId, Mailbox, Mood, MySide, TheirSide, Nameplate, Phase}

-- `serde_json::Value`
abbrev pub Value : Type 0
Value = Json

-- `Nameplate_`, the form of one entry of the `nameplates` message.
pub record NameplateEntry : Type 0 where
  pub id : Bytes

-- `Nameplate_::deserialize` and `Nameplate_::serialize`, between the entries and the names.
unfoldable pub nameplates_of : List NameplateEntry → List Nameplate
nameplates_of = map λ e. e.id

unfoldable pub entries_of : List Nameplate → List NameplateEntry
entries_of = map λ n. record { id = n }

pub data SubmitPermission : Type 0 where
  hashcash : Bytes → SubmitPermission

pub record HashcashPermission : Type 0 where
  pub bits : ℕ
  pub resource : Bytes

pub record PermissionRequired : Type 0 where
  pub none_allowed : Bool
  pub hashcash : Option HashcashPermission
  pub other : List (Bytes × Value)

pub record WelcomeMessage : Type 0 where
  pub current_cli_version : Option Bytes
  pub motd : Option Bytes
  pub error : Option Bytes
  pub permission_required : Option PermissionRequired

pub record EncryptedMessage : Type 0 where
  pub side : TheirSide
  pub phase : Phase
  pub body : Bytes

-- The client sends only these.
pub data OutboundMessage : Type 0 where
  submit_permission : SubmitPermission → OutboundMessage
  bind : AppId → MySide → OutboundMessage
  list : OutboundMessage
  allocate : OutboundMessage
  claim : Bytes → OutboundMessage
  release : Bytes → OutboundMessage
  open_mailbox : Mailbox → OutboundMessage
  add : Phase → Bytes → OutboundMessage
  close : Mailbox → Mood → OutboundMessage
  ping : ℕ → OutboundMessage

-- The server sends only these.
pub data InboundMessage : Type 0 where
  welcome : WelcomeMessage → InboundMessage
  nameplates : List Nameplate → InboundMessage
  allocated : Nameplate → InboundMessage
  claimed : Mailbox → InboundMessage
  released : InboundMessage
  message : EncryptedMessage → InboundMessage
  closed : InboundMessage
  ack : InboundMessage
  pong : ℕ → InboundMessage
  error : Bytes → InboundMessage → InboundMessage
  unknown : InboundMessage
