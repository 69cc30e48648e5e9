-- ===== src/Transfer/Messages/RoundTrip.antt =====
-- A message of the transfer that is written as JSON is read back.
use magic_wormhole_rs.Common.{
  ◌<◌, ◌^◌, ◌≡◌, refl, List, [], ◌∷◌, none, some, true, Bytes, bytes_eq, All, Option-cases, inl,
  inr,
}
use magic_wormhole_rs.Util.Display.{utf8_from}
use magic_wormhole_rs.Core.Json.{◌>>=◌, field, read_string, read_object}
use magic_wormhole_rs.Core.Json.Laws.{read_number-number, read_elements-write_elements}
use magic_wormhole_rs.Core.Messages.Decoding.{string_field}
use magic_wormhole_rs.Transit.Hints.{Ability, DirectHint, other}
use magic_wormhole_rs.Transit.Hints
use magic_wormhole_rs.Transfer.Messages.{
  Hint, direct_tcp_v1, direct_udt_v1, relay_v1, TransitType, OfferType, message, file, directory,
  unknown, AnswerType, message_ack, file_ack, PeerMessage, offer, answer, error, transit,
  other_message, TransitAck,
}
use magic_wormhole_rs.Transfer.Messages.Encoding.{
  path_to_json, ability_to_json, direct_hint_entries, direct_hint_to_json, relay_hint_entries,
  hint_to_json, transit_to_json, offer_to_json, answer_to_json, peer_to_json, ack_to_json,
}
use magic_wormhole_rs.Transfer.Messages.Decoding.{
  only_entry, without_content, ability_tagged, ability_from_json, read_direct_hint,
  direct_hint_from_json, read_relay_hint, hint_tagged, hint_from_json, transit_from_json, read_file,
  read_directory, offer_variant, offer_from_json, answer_variant, answer_from_json, peer_variant,
  peer_from_json, ack_from_json,
}

-- A path is UTF-8.
abbrev pub IsText : Bytes → Type 0
IsText path = utf8_from 0 0 0 path ≡ true

-- The numbers are in the range of their types, and the paths can be written.
abbrev pub IsPort : DirectHint → Type 0
IsPort h = h.port < 2 ^ 16

abbrev pub IsHint : Hint → Type 0
IsHint (direct_tcp_v1 h) = IsPort h
IsHint (direct_udt_v1 h) = IsPort h
IsHint (relay_v1 r) = All IsPort r.hints

abbrev pub IsOffer : OfferType → Type 0
IsOffer (file name size) = IsText name × (size < 2 ^ 64)
IsOffer (directory name mode zipsize numbytes numfiles) =
    IsText name × (zipsize < 2 ^ 64) × (numbytes < 2 ^ 64) × (numfiles < 2 ^ 64)
IsOffer _ = Unit {0}

abbrev pub IsPrintable : PeerMessage → Type 0
IsPrintable (offer o) = IsOffer o
IsPrintable (transit t) = All IsHint t.hints_v1
IsPrintable _ = Unit {0}

ability-back : (a : Ability) → ability_from_json (ability_to_json a) ≡ some a
unfolding ability_from_json ability_to_json field string_field read_object read_string bytes_eq
    ability_tagged
ability-back Hints.direct_tcp_v1 = refl
ability-back Hints.direct_udt_v1 = refl
ability-back Hints.relay_v1 = refl
ability-back other = refl

abilities-back : (xs : List Ability) → All (λ a. ability_from_json (ability_to_json a) ≡ some a) xs
abilities-back [] = tt
abilities-back (a ∷ xs) = (ability-back a, abilities-back xs)

module _ (h : DirectHint) (p : IsPort h) where
  direct_hint-back : direct_hint_from_json (direct_hint_to_json h) ≡ some h
  unfolding direct_hint_from_json direct_hint_to_json direct_hint_entries read_direct_hint
      string_field field bytes_eq read_object read_string
  direct_hint-back = rw (read_number-number (2 ^ 16) h.port p) refl

direct_hints-back :
    (hs : List DirectHint)
    → All IsPort hs
    → All (λ h. direct_hint_from_json (direct_hint_to_json h) ≡ some h) hs
direct_hints-back [] ps = tt
direct_hints-back (h ∷ hs) ps = (direct_hint-back h ps.0, direct_hints-back hs ps.1)

hint-back : (h : Hint) → IsHint h → hint_from_json (hint_to_json h) ≡ some h
unfolding hint_from_json hint_to_json hint_tagged read_direct_hint read_relay_hint
    direct_hint_entries relay_hint_entries string_field field bytes_eq read_object read_string
hint-back (direct_tcp_v1 h) p = rw (read_number-number (2 ^ 16) h.port p) refl
hint-back (direct_udt_v1 h) p = rw (read_number-number (2 ^ 16) h.port p) refl
hint-back (relay_v1 r) p =
    rw
      (read_elements-write_elements direct_hint_from_json direct_hint_to_json r.hints
        (direct_hints-back r.hints p))
      refl

hints-back :
    (hs : List Hint) → All IsHint hs → All (λ h. hint_from_json (hint_to_json h) ≡ some h) hs
hints-back [] ps = tt
hints-back (h ∷ hs) ps = (hint-back h ps.0, hints-back hs ps.1)

transit-back :
    (t : TransitType) → All IsHint t.hints_v1 → transit_from_json (transit_to_json t) ≡ some t
unfolding transit_from_json transit_to_json read_object field bytes_eq
transit-back t p =
    rw
      (
        read_elements-write_elements ability_from_json ability_to_json t.abilities_v1
            (abilities-back t.abilities_v1),
        read_elements-write_elements hint_from_json hint_to_json t.hints_v1
            (hints-back t.hints_v1 p),
      )
      refl

offer-back : (o : OfferType) → IsOffer o → (offer_to_json o >>= offer_from_json) ≡ some o
unfolding offer_from_json offer_to_json offer_variant only_entry read_file read_directory
    path_to_json string_field field bytes_eq read_object read_string without_content
offer-back (message s) p = refl
offer-back (file name size) p = rw (p.0, read_number-number (2 ^ 64) size p.1) refl
offer-back (directory name mode zipsize numbytes numfiles) p =
    rw
      (
        p.0,
        read_number-number (2 ^ 64) zipsize p.1,
        read_number-number (2 ^ 64) numbytes p.2,
        read_number-number (2 ^ 64) numfiles p.3,
      )
      refl
offer-back unknown p = refl

answer-back : (a : AnswerType) → answer_from_json (answer_to_json a) ≡ some a
unfolding answer_from_json answer_to_json answer_variant only_entry bytes_eq read_string
answer-back (message_ack s) = refl
answer-back (file_ack s) = refl

-- Every message for the peer whose numbers are in range, and whose path is UTF-8, is written without
-- a panic, and what is written is read as the same message.
pub peer_from_json-peer_to_json :
    (m : PeerMessage) → IsPrintable m → (peer_to_json m >>= peer_from_json) ≡ some m
unfolding peer_from_json peer_to_json peer_variant only_entry bytes_eq read_string without_content
peer_from_json-peer_to_json (offer o) p = elim (Option-cases (offer_to_json o)) [
  | inl unwritten ↦ let back : none ≡ some o = rw unwritten at (offer-back o p) in cc
  | inr (v, written) ↦
      let back : offer_from_json v ≡ some o = rw written at (offer-back o p) in
      rw (written, back) refl
]
peer_from_json-peer_to_json (answer a) p = rw (answer-back a) refl
peer_from_json-peer_to_json (error s) p = refl
peer_from_json-peer_to_json (transit t) p = rw (transit-back t p) refl
peer_from_json-peer_to_json other_message p = refl

-- The final acknowledgement is read back.
pub ack_from_json-ack_to_json : (a : TransitAck) → ack_from_json (ack_to_json a) ≡ some a
unfolding ack_from_json ack_to_json string_field field bytes_eq read_object read_string
ack_from_json-ack_to_json a = refl
