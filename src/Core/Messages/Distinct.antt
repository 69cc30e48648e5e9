-- ===== src/Core/Messages/Distinct.antt =====
-- The JSON of a message that the client sends says which message it is: a reader that goes by the
-- type gets the message back.
use magic_wormhole_rs.Common.{
  ℕ, ◌≡◌, refl, sym, ap, ◌∙◌, Option, none, some, Bytes, bytes_eq, if◌then◌else◌,
}
use magic_wormhole_rs.Common.Text.{codes}
use magic_wormhole_rs.Core.Json.{Json, number, Entries, ◌>>=◌, field, read_object, read_string}
use magic_wormhole_rs.Core.Names.{Mood, happy, lonely, errory, scared, unwelcome, Mood_name}
use magic_wormhole_rs.Core.Messages.{
  hashcash, OutboundMessage, submit_permission, bind, list, allocate, claim, release, open_mailbox,
  add, close, ping,
}
use magic_wormhole_rs.Core.Messages.Encoding.{permission_entries, outbound_to_json}
use magic_wormhole_rs.Core.Messages.Decoding.{string_field}

mood_named : Bytes → Option Mood
unfolding bytes_eq
mood_named s =
    if bytes_eq s (codes "happy")
    then some happy
    else if bytes_eq s (codes "lonely")
    then some lonely
    else if bytes_eq s (codes "errory")
    then some errory
    else if bytes_eq s (codes "scary")
    then some scared
    else if bytes_eq s (codes "unwelcome")
    then some unwelcome
    else none

mood_named-Mood_name : (m : Mood) → mood_named (Mood_name m) ≡ some m
unfolding mood_named Mood_name
mood_named-Mood_name happy = refl
mood_named-Mood_name lonely = refl
mood_named-Mood_name errory = refl
mood_named-Mood_name scared = refl
mood_named-Mood_name unwelcome = refl

any_number : Json → Option ℕ
any_number (number n) = some n
any_number _ = none

module _ (hex_decode : Bytes → Option Bytes) where
  outbound_named : Bytes → Entries → Option OutboundMessage
  unfolding bytes_eq field string_field read_string mood_named any_number
  outbound_named type es =
      if bytes_eq type (codes "submit-permission")
      then (string_field (codes "stamp") es >>= λ s. some (submit_permission (hashcash s)))
      else if bytes_eq type (codes "bind")
      then (string_field (codes "appid") es >>= λ a.
          string_field (codes "side") es >>= λ s. some (bind a s))
      else if bytes_eq type (codes "list")
      then some list
      else if bytes_eq type (codes "allocate")
      then some allocate
      else if bytes_eq type (codes "claim")
      then (string_field (codes "nameplate") es >>= λ n. some (claim n))
      else if bytes_eq type (codes "release")
      then (string_field (codes "nameplate") es >>= λ n. some (release n))
      else if bytes_eq type (codes "open")
      then (string_field (codes "mailbox") es >>= λ m. some (open_mailbox m))
      else if bytes_eq type (codes "add")
      then (string_field (codes "phase") es >>= λ p.
          string_field (codes "body") es >>= hex_decode >>= λ b. some (add p b))
      else if bytes_eq type (codes "close")
      then (string_field (codes "mailbox") es >>= λ m.
          string_field (codes "mood") es >>= mood_named >>= λ d. some (close m d))
      else if bytes_eq type (codes "ping")
      then (field (codes "ping") es >>= any_number >>= λ n. some (ping n))
      else none

  outbound_from_json : Json → Option OutboundMessage
  unfolding outbound_named read_object
  outbound_from_json v = do
    es ← read_object v
    type ← string_field (codes "type") es
    outbound_named type es

  module _ (hex_encode : Bytes → Bytes)
      (hex : (b : Bytes) → hex_decode (hex_encode b) ≡ some b) where
    outbound_from_json-outbound_to_json :
        (m : OutboundMessage) → outbound_from_json (outbound_to_json hex_encode m) ≡ some m
    unfolding outbound_from_json outbound_to_json permission_entries
    outbound_from_json-outbound_to_json (submit_permission (hashcash stamp)) = refl
    outbound_from_json-outbound_to_json (bind appid side) = refl
    outbound_from_json-outbound_to_json list = refl
    outbound_from_json-outbound_to_json allocate = refl
    outbound_from_json-outbound_to_json (claim nameplate) = refl
    outbound_from_json-outbound_to_json (release nameplate) = refl
    outbound_from_json-outbound_to_json (open_mailbox mailbox) = refl
    outbound_from_json-outbound_to_json (add phase body) = rw (hex body) refl
    outbound_from_json-outbound_to_json (close mailbox mood) = rw (mood_named-Mood_name mood) refl
    outbound_from_json-outbound_to_json (ping n) = refl

-- If hex::decode reads what hex::encode writes, then two messages of the client with the same JSON
-- are the same message: the server can tell apart all that the client says.
pub outbound_to_json-injective :
    (hex_encode : Bytes → Bytes) (hex_decode : Bytes → Option Bytes)
    → ((b : Bytes) → hex_decode (hex_encode b) ≡ some b)
    → (m n : OutboundMessage) → outbound_to_json hex_encode m ≡ outbound_to_json hex_encode n
    → m ≡ n
outbound_to_json-injective hex_encode hex_decode hex m n h =
    let read : some m ≡ some n =
      sym (outbound_from_json-outbound_to_json hex_decode hex_encode hex m)
      ∙ ap (outbound_from_json hex_decode) h
      ∙ outbound_from_json-outbound_to_json hex_decode hex_encode hex n in
    cc read
