-- ===== src/Transfer/Messages.antt =====
-- The messages of src/transfer/messages.rs, the errors of src/transfer.rs, and the conversion of hints.
pub mod Encoding
pub mod Decoding
pub mod RoundTrip
pub mod Unknown
use mathlib.Core.List.{map}
use magic_wormhole_rs.Common.{ℕ, List, [], ◌∷◌, ◌++◌, Option, none, some, Bytes}
use magic_wormhole_rs.Core.Wormhole.{WormholeError}
use magic_wormhole_rs.Transit.Hints.{Ability, DirectHint, Hints, insert, extend}
use magic_wormhole_rs.Transit.Socket.{IoError}
use magic_wormhole_rs.Transit.Record.{TransitError}
use magic_wormhole_rs.Transit.Connect.{TransitConnectError}

pub record RelayHint : Type 0 where
  pub hints : List DirectHint

pub data Hint : Type 0 where
  direct_tcp_v1 : DirectHint → Hint
  direct_udt_v1 : DirectHint → Hint
  relay_v1 : RelayHint → Hint

pub record TransitType : Type 0 where
  pub abilities_v1 : List Ability
  pub hints_v1 : List Hint

pub data OfferType : Type 0 where
  message : Bytes → OfferType
  file : Bytes → ℕ → OfferType
  directory : Bytes → Bytes → ℕ → ℕ → ℕ → OfferType
  unknown : OfferType

pub data AnswerType : Type 0 where
  message_ack : Bytes → AnswerType
  file_ack : Bytes → AnswerType

pub data PeerMessage : Type 0 where
  offer : OfferType → PeerMessage
  answer : AnswerType → PeerMessage
  error : Bytes → PeerMessage
  transit : TransitType → PeerMessage
  other_message : PeerMessage

abbrev pub new_offer_message : Bytes → PeerMessage
new_offer_message msg = offer (message msg)

abbrev pub new_offer_file : Bytes → ℕ → PeerMessage
new_offer_file name size = offer (file name size)

abbrev pub new_offer_directory : Bytes → Bytes → ℕ → ℕ → ℕ → PeerMessage
new_offer_directory name mode compressed_size numbytes numfiles =
    offer (directory name mode compressed_size numbytes numfiles)

abbrev pub new_message_ack : Bytes → PeerMessage
new_message_ack msg = answer (message_ack msg)

abbrev pub new_file_ack : Bytes → PeerMessage
new_file_ack msg = answer (file_ack msg)

abbrev pub new_error_message : Bytes → PeerMessage
new_error_message msg = error msg

abbrev pub new_transit : List Ability → List Hint → PeerMessage
new_transit abilities hints = transit (record { abilities_v1 = abilities; hints_v1 = hints })

abbrev pub new_direct_tcp : Bytes → ℕ → Hint
new_direct_tcp hostname port = direct_tcp_v1 (record { hostname = hostname; port = port })

abbrev pub new_direct_udt : Bytes → ℕ → Hint
new_direct_udt hostname port = direct_udt_v1 (record { hostname = hostname; port = port })

abbrev pub new_relay : List DirectHint → Hint
new_relay h = relay_v1 (record { hints = h })

-- `From<transit::Hints> for Vec<Hint>`
unfoldable pub from_hints : Hints → List Hint
from_hints hints = map direct_tcp_v1 hints.direct_tcp ++ (new_relay hints.relay ∷ [])

-- The loop of `Into<transit::Hints>`; `none` is the panic of `unimplemented!`.
unfoldable pub collect_hints : Hints → List Hint → Option Hints
unfolding insert extend
collect_hints hints [] = some hints
collect_hints hints (direct_tcp_v1 h ∷ rest) =
    collect_hints (record hints { direct_tcp = insert h hints.direct_tcp }) rest
collect_hints hints (direct_udt_v1 h ∷ rest) = none
collect_hints hints (relay_v1 r ∷ rest) =
    collect_hints (record hints { relay = extend hints.relay r.hints }) rest

unfoldable pub into_hints : List Hint → Option Hints
unfolding collect_hints
into_hints hints = collect_hints (record { direct_tcp = []; relay = [] }) hints

-- `TransferError`; the server's and the codec's error are not told apart.
pub data TransferError : Type 0 where
  ack_error : TransferError
  checksum : TransferError
  file_size : ℕ → ℕ → TransferError
  filesystem_skew : TransferError
  unsupported_offer : TransferError
  peer_error : Bytes → TransferError
  protocol_json : TransferError
  protocol : Bytes → TransferError
  protocol_unexpected_message : Bytes → PeerMessage → TransferError
  wormhole_error : WormholeError → TransferError
  transit_connect : TransitConnectError → TransferError
  transit_error : TransitError → TransferError
  io_error : IoError → TransferError

pub record TransitAck : Type 0 where
  pub ack : Bytes
  pub sha256 : Bytes
