-- ===== src/Transfer/Messages/Decoding.antt =====
-- What `#[derive(Deserialize)]` makes of the JSON of a message of src/transfer/messages.rs, and of
-- the hints and abilities of src/transit.rs in it; `none` is serde's error.
use magic_wormhole_rs.Common.{◌^◌, Option, none, some, Bytes, bytes_eq, if◌then◌else◌}
use magic_wormhole_rs.Common.Text.{codes}
use magic_wormhole_rs.Core.Json.{
  Json, null, string, object, Entries, end, entry, ◌>>=◌, field, read_object, read_string,
  read_number, read_array,
}
use magic_wormhole_rs.Core.Messages.Decoding.{string_field}
use magic_wormhole_rs.Transit.Hints.{Ability, DirectHint, other}
use magic_wormhole_rs.Transit.Hints
use magic_wormhole_rs.Transfer.Messages.{
  RelayHint, Hint, direct_tcp_v1, direct_udt_v1, relay_v1, TransitType, OfferType, message, file,
  directory, unknown, AnswerType, message_ack, file_ack, PeerMessage, offer, answer, error, transit,
  other_message, TransitAck,
}

-- The only entry of an object, which is how a variant without a tag stands.
unfoldable pub only_entry : Entries → Option (Bytes × Json)
only_entry (entry k v end) = some (k, v)
only_entry _ = none

-- The variant that is marked `serde(other)` takes no content, so any that is there must be null.
unfoldable pub without_content {ℓ} : {A : Type ℓ} → A → Json → Option A
without_content a null = some a
without_content a _ = none

-- Any tag but the three known ones is `Other`.
unfoldable pub ability_tagged : Bytes → Ability
ability_tagged type =
    if bytes_eq type (codes "direct-tcp-v1")
    then Hints.direct_tcp_v1
    else if bytes_eq type (codes "direct-udt-v1")
    then Hints.direct_udt_v1
    else if bytes_eq type (codes "relay-v1")
    then Hints.relay_v1
    else other

unfoldable pub ability_from_json : Json → Option Ability
unfolding read_object string_field ability_tagged
ability_from_json v = do
  es ← read_object v
  type ← string_field (codes "type") es
  some (ability_tagged type)

unfoldable pub read_direct_hint : Entries → Option DirectHint
unfolding string_field field read_number
read_direct_hint es = do
  h ← string_field (codes "hostname") es
  v ← field (codes "port") es
  p ← read_number (2 ^ 16) v
  some (record { hostname = h; port = p })

unfoldable pub direct_hint_from_json : Json → Option DirectHint
unfolding read_object read_direct_hint
direct_hint_from_json v = read_object v >>= read_direct_hint

unfoldable pub read_relay_hint : Entries → Option RelayHint
unfolding field direct_hint_from_json
read_relay_hint es = do
  v ← field (codes "hints") es
  hs ← read_array direct_hint_from_json v
  some (record { hints = hs })

-- A hint of any other type is an error.
unfoldable pub hint_tagged : Bytes → Entries → Option Hint
unfolding read_direct_hint read_relay_hint
hint_tagged type es =
    if bytes_eq type (codes "direct-tcp-v1")
    then (read_direct_hint es >>= λ h. some (direct_tcp_v1 h))
    else if bytes_eq type (codes "direct-udt-v1")
    then (read_direct_hint es >>= λ h. some (direct_udt_v1 h))
    else if bytes_eq type (codes "relay-v1")
    then (read_relay_hint es >>= λ r. some (relay_v1 r))
    else none

unfoldable pub hint_from_json : Json → Option Hint
unfolding read_object string_field hint_tagged
hint_from_json v = do es ← read_object v; type ← string_field (codes "type") es; hint_tagged type es

unfoldable pub transit_from_json : Json → Option TransitType
unfolding read_object field ability_from_json hint_from_json
transit_from_json v = do
  es ← read_object v
  a ← field (codes "abilities-v1") es
  abilities ← read_array ability_from_json a
  h ← field (codes "hints-v1") es
  hs ← read_array hint_from_json h
  some (record { abilities_v1 = abilities; hints_v1 = hs })

unfoldable pub read_file : Json → Option OfferType
unfolding read_object string_field field read_number
read_file v = do
  es ← read_object v
  name ← string_field (codes "filename") es
  s ← field (codes "filesize") es
  size ← read_number (2 ^ 64) s
  some (file name size)

unfoldable pub read_directory : Json → Option OfferType
unfolding read_object string_field field read_number
read_directory v = do
  es ← read_object v
  name ← string_field (codes "dirname") es
  mode ← string_field (codes "mode") es
  z ← field (codes "zipsize") es
  zipsize ← read_number (2 ^ 64) z
  b ← field (codes "numbytes") es
  numbytes ← read_number (2 ^ 64) b
  f ← field (codes "numfiles") es
  numfiles ← read_number (2 ^ 64) f
  some (directory name mode zipsize numbytes numfiles)

unfoldable pub offer_variant : Bytes → Json → Option OfferType
unfolding read_string read_file read_directory without_content
offer_variant k v =
    if bytes_eq k (codes "message")
    then (read_string v >>= λ s. some (message s))
    else if bytes_eq k (codes "file")
    then read_file v
    else if bytes_eq k (codes "directory")
    then read_directory v
    else without_content unknown v

unfoldable pub offer_from_json : Json → Option OfferType
unfolding only_entry offer_variant
offer_from_json (string s) = offer_variant s null
offer_from_json (object es) = only_entry es >>= λ (k, v). offer_variant k v
offer_from_json _ = none

unfoldable pub answer_variant : Bytes → Json → Option AnswerType
unfolding read_string
answer_variant k v =
    if bytes_eq k (codes "message_ack")
    then (read_string v >>= λ s. some (message_ack s))
    else if bytes_eq k (codes "file_ack")
    then (read_string v >>= λ s. some (file_ack s))
    else none

unfoldable pub answer_from_json : Json → Option AnswerType
unfolding only_entry answer_variant
answer_from_json (object es) = only_entry es >>= λ (k, v). answer_variant k v
answer_from_json _ = none

unfoldable pub peer_variant : Bytes → Json → Option PeerMessage
unfolding offer_from_json answer_from_json read_string transit_from_json without_content
peer_variant k v =
    if bytes_eq k (codes "offer")
    then (offer_from_json v >>= λ o. some (offer o))
    else if bytes_eq k (codes "answer")
    then (answer_from_json v >>= λ a. some (answer a))
    else if bytes_eq k (codes "error")
    then (read_string v >>= λ s. some (error s))
    else if bytes_eq k (codes "transit")
    then (transit_from_json v >>= λ t. some (transit t))
    else without_content other_message v

-- A string stands for a variant with no content: it is `Unknown`, or an error where the variant of
-- that name has content.
unfoldable pub peer_from_json : Json → Option PeerMessage
unfolding only_entry peer_variant
peer_from_json (string s) = peer_variant s null
peer_from_json (object es) = only_entry es >>= λ (k, v). peer_variant k v
peer_from_json _ = none

unfoldable pub ack_from_json : Json → Option TransitAck
unfolding read_object string_field
ack_from_json v = do
  es ← read_object v
  a ← string_field (codes "ack") es
  s ← string_field (codes "sha256") es
  some (record { ack = a; sha256 = s })
