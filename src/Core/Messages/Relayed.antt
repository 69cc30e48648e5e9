-- ===== src/Core/Messages/Relayed.antt =====
-- What a client reads of the messages that the server makes from a client's own.
use magic_wormhole_rs.Common.{◌≡◌, refl, ◌∙◌, Option, some, Bytes, bytes_eq}
use magic_wormhole_rs.Common.Text.{codes}
use magic_wormhole_rs.Core.Json.{object, string, Entries, end, entry, field, read_string}
use magic_wormhole_rs.Core.Names.{Mood_name}
use magic_wormhole_rs.Core.Messages.{
  OutboundMessage, submit_permission, hashcash, bind, list, allocate, claim, release, open_mailbox,
  add, close, ping, message, error, unknown,
}
use magic_wormhole_rs.Core.Messages.Encoding.{outbound_to_json, permission_entries}
use magic_wormhole_rs.Core.Messages.Decoding.{
  string_field, read_encrypted, read_variant, read_tagged, inbound_from_json, read_orig,
}
use magic_wormhole_rs.Core.Messages.Lenient.{read_orig-field}

module _ (hex_encode : Bytes → Bytes) (hex_decode : Bytes → Option Bytes) where
  -- If hex::decode reads what hex::encode writes, and the server relays an added message with the
  -- phase and the body that it came with, under the type `message` and the sender's side, among
  -- whatever other fields, then the other client reads exactly the side, the phase and the body.
  pub inbound_from_json-relays :
      ((b : Bytes) → hex_decode (hex_encode b) ≡ some b)
      → (side phase body : Bytes) (sent es : Entries)
      → outbound_to_json hex_encode (add phase body) ≡ object sent
      → field (codes "type") es ≡ some (string (codes "message"))
      → field (codes "side") es ≡ some (string side)
      → field (codes "phase") es ≡ field (codes "phase") sent
      → field (codes "body") es ≡ field (codes "body") sent
      → inbound_from_json hex_decode (object es)
        ≡ some (message (record { side = side; phase = phase; body = body }))
  unfolding outbound_to_json inbound_from_json read_tagged read_variant read_encrypted string_field
      read_string bytes_eq
  inbound_from_json-relays hex side phase body sent es h t s p b =
      let written : sent
          ≡ entry (codes "type") (string (codes "add")) (
              entry (codes "phase") (string phase)
                (entry (codes "body") (string (hex_encode body)) end)) =
        cc h in
      let p' : field (codes "phase") es ≡ some (string phase) =
        p ∙ (rw written (unfold field in refl)) in
      let b' : field (codes "body") es ≡ some (string (hex_encode body)) =
        b ∙ (rw written (unfold field in refl)) in
      rw (t, s, p', b', hex body) refl

  -- Nothing that the client sends has a type that the server's messages have.
  pub inbound_from_json-outbound :
      (m : OutboundMessage)
      → inbound_from_json hex_decode (outbound_to_json hex_encode m) ≡ some unknown
  unfolding inbound_from_json outbound_to_json read_tagged read_variant string_field field
      read_string bytes_eq permission_entries Mood_name read_orig
  inbound_from_json-outbound (submit_permission (hashcash stamp)) = refl
  inbound_from_json-outbound (bind appid side) = refl
  inbound_from_json-outbound list = refl
  inbound_from_json-outbound allocate = refl
  inbound_from_json-outbound (claim n) = refl
  inbound_from_json-outbound (release n) = refl
  inbound_from_json-outbound (open_mailbox b) = refl
  inbound_from_json-outbound (add p b) = refl
  inbound_from_json-outbound (close b mood) = refl
  inbound_from_json-outbound (ping n) = refl

  -- When the server answers any message of the client with an error that quotes it, among whatever
  -- other fields, the client reads the error's text, and an unknown message as the one quoted.
  pub inbound_from_json-errors :
      (m : OutboundMessage) (e : Bytes) (es : Entries)
      → field (codes "type") es ≡ some (string (codes "error"))
      → field (codes "error") es ≡ some (string e)
      → field (codes "orig") es ≡ some (outbound_to_json hex_encode m)
      → inbound_from_json hex_decode (object es) ≡ some (error e unknown)
  unfolding inbound_from_json read_tagged read_variant string_field read_string bytes_eq
  inbound_from_json-errors m e es t s o =
      rw (t, read_orig-field hex_decode es, o, inbound_from_json-outbound m, s) refl
