-- ===== src/Examples/Wire.antt =====
-- Messages as JSON on concrete input. The stand-in for hex is the identity.
use magic_wormhole_rs.Common.{
  ◌≡◌, ◌≢◌, refl, sym, ◌∙◌, arith, inl, inr, [], ◌∷◌, none, some, true, false, Bytes, bytes_eq,
  bytes_eq_iff, contains,
}
use magic_wormhole_rs.Common.Text.{codes}
use magic_wormhole_rs.Util.Display.{utf8_from}
use magic_wormhole_rs.Core.Json.{
  null, number, string, array, nil, cons, object, Entries, end, entry, ◌>>=◌, field, fits,
}
use magic_wormhole_rs.Core.Key.{PhaseMessage, VersionsMessage}
use magic_wormhole_rs.Core.Key.Codecs.{phase_codec, versions_codec, codecs-back}
use magic_wormhole_rs.Core.Messages.{claim, add, ack, message, error, unknown}
use magic_wormhole_rs.Core.Messages.Encoding.{with_string, outbound_to_json}
use magic_wormhole_rs.Core.Messages.Decoding.{string_field, inbound_from_json}
use magic_wormhole_rs.Core.Messages.Relayed.{inbound_from_json-relays, inbound_from_json-errors}
use magic_wormhole_rs.Core.Messages.Lenient.{inbound_from_json-insists}
use magic_wormhole_rs.Core.Messages.Reads.{Absent, Once, Reads, inbound_from_json-Reads}
use magic_wormhole_rs.Core.Messages.Distinct.{outbound_to_json-injective}
use magic_wormhole_rs.Transfer.Messages.{PeerMessage, new_offer_file}
use magic_wormhole_rs.Transfer.Messages.Encoding.{peer_to_json}
use magic_wormhole_rs.Transfer.Messages.Decoding.{peer_from_json}
use magic_wormhole_rs.Transfer.Messages.RoundTrip.{IsText, peer_from_json-peer_to_json}
use magic_wormhole_rs.Transfer.Messages.Unknown.{hint_names, peer_from_json-HasUnknown}
use magic_wormhole_rs.Examples.JsonText.{toy_text, toy_text-IsFaithful}

abbrev hex : Bytes → Bytes
hex b = b

abbrev said : Entries
said =
    entry (codes "type") (string (codes "add"))
      (with_string (codes "phase") (codes "0") (with_string (codes "body") (1 ∷ 2 ∷ []) end))

-- The fields in another order, with the time that the server adds.
abbrev relayed : Entries
relayed = with_string (codes "body") (1 ∷ 2 ∷ []) (
    with_string (codes "side") (codes "a") (
      entry (codes "server_rx") (number 7) (
        with_string (codes "phase") (codes "0")
          (entry (codes "type") (string (codes "message")) end))))

said_by_a : outbound_to_json hex (add (codes "0") (1 ∷ 2 ∷ [])) ≡ object said
unfolding outbound_to_json
said_by_a = refl

relayed_type : field (codes "type") relayed ≡ some (string (codes "message"))
unfolding field bytes_eq
relayed_type = refl

relayed_side : field (codes "side") relayed ≡ some (string (codes "a"))
unfolding field bytes_eq
relayed_side = refl

relayed_phase : field (codes "phase") relayed ≡ field (codes "phase") said
unfolding field bytes_eq
relayed_phase = refl

relayed_body : field (codes "body") relayed ≡ field (codes "body") said
unfolding field bytes_eq
relayed_body = refl

inbound_from_json-relays_example :
    inbound_from_json some (object relayed)
    ≡ some (message (record { side = codes "a"; phase = codes "0"; body = 1 ∷ 2 ∷ [] }))
inbound_from_json-relays_example =
    inbound_from_json-relays hex some (λ b. refl) (codes "a") (codes "0") (1 ∷ 2 ∷ []) said relayed
      said_by_a relayed_type relayed_side relayed_phase relayed_body

outbound_to_json-injective_example : claim (codes "4") ≡ claim (codes "4")
outbound_to_json-injective_example =
    outbound_to_json-injective hex some (λ b. refl) (claim (codes "4")) (claim (codes "4")) refl

abbrev crowded : Entries
crowded = entry (codes "type") (string (codes "error")) (
    with_string (codes "error") (codes "crowded")
      (entry (codes "orig") (outbound_to_json hex (claim (codes "4"))) end))

crowded_type : field (codes "type") crowded ≡ some (string (codes "error"))
unfolding field bytes_eq
crowded_type = refl

crowded_error : field (codes "error") crowded ≡ some (string (codes "crowded"))
unfolding field bytes_eq
crowded_error = refl

crowded_orig : field (codes "orig") crowded ≡ some (outbound_to_json hex (claim (codes "4")))
unfolding field bytes_eq
crowded_orig = refl

inbound_from_json-errors_example :
    inbound_from_json some (object crowded) ≡ some (error (codes "crowded") unknown)
inbound_from_json-errors_example =
    inbound_from_json-errors hex some (claim (codes "4")) (codes "crowded") crowded crowded_type
      crowded_error crowded_orig

abbrev short_ack : Entries
short_ack = entry (codes "type") (string (codes "ack")) end

abbrev long_ack : Entries
long_ack = entry (codes "id") null short_ack

-- An error that quotes an acknowledgement, with the time that the server adds.
abbrev quoting : Entries
quoting = entry (codes "orig") (object long_ack) (
    entry (codes "server_tx") (number 7) (
      with_string (codes "error") (codes "crowded")
        (with_string (codes "type") (codes "error") end)))

differs : (a b : Bytes) → bytes_eq a b ≡ false → a ≢ b
differs a b n e =
    let same : bytes_eq a b ≡ true = (bytes_eq_iff a b).1 e in
    let bad : true ≡ false = sym same ∙ n in cc

quoting-Reads : Reads some (error (codes "crowded") ack) quoting
unfolding Reads Once Absent bytes_eq
quoting-Reads = (
  inr (
    differs (codes "orig") (codes "type") refl,
    inr (
      differs (codes "server_tx") (codes "type") refl,
      inr (differs (codes "error") (codes "type") refl, inl (refl, refl, tt)),
    ),
  ),
  inr (
    differs (codes "orig") (codes "error") refl,
    inr (
      differs (codes "server_tx") (codes "error") refl,
      inl (refl, refl, (differs (codes "type") (codes "error") refl, tt)),
    ),
  ),
  long_ack,
  inl (
    refl,
    refl,
    (
      differs (codes "server_tx") (codes "orig") refl,
      (
        differs (codes "error") (codes "orig") refl,
        (differs (codes "type") (codes "orig") refl, tt),
      ),
    ),
  ),
  inr (differs (codes "id") (codes "type") refl, inl (refl, refl, tt)),
)

reads_quoting : inbound_from_json some (object quoting) ≡ some (error (codes "crowded") ack)
reads_quoting = inbound_from_json-Reads some (error (codes "crowded") ack) quoting quoting-Reads

abbrev hashcash_only : Entries
hashcash_only =
    entry (codes "hashcash")
      (object (entry (codes "bits") (number 6) (with_string (codes "resource") (codes "r") end)))
      end

abbrev guarded : Entries
guarded = entry (codes "permission-required") (object hashcash_only) end

abbrev guarded_welcome : Entries
guarded_welcome =
    entry (codes "type") (string (codes "welcome")) (entry (codes "welcome") (object guarded) end)

guarded_type : field (codes "type") guarded_welcome ≡ some (string (codes "welcome"))
unfolding field bytes_eq
guarded_type = refl

guarded_inside : field (codes "welcome") guarded_welcome ≡ some (object guarded)
unfolding field bytes_eq
guarded_inside = refl

guarded_permission : field (codes "permission-required") guarded ≡ some (object hashcash_only)
unfolding field bytes_eq
guarded_permission = refl

guarded_none : field (codes "none") hashcash_only ≡ none
unfolding field bytes_eq
guarded_none = refl

inbound_from_json-insists_example : inbound_from_json some (object guarded_welcome) ≡ none
inbound_from_json-insists_example =
    inbound_from_json-insists some guarded_welcome guarded hashcash_only guarded_type guarded_inside
      guarded_permission guarded_none

abbrev offered : PeerMessage
offered = new_offer_file (codes "f.txt") 5000

name-IsText : IsText (codes "f.txt")
unfolding utf8_from
name-IsText = refl

peer_from_json-peer_to_json_example : (peer_to_json offered >>= peer_from_json) ≡ some offered
peer_from_json-peer_to_json_example = peer_from_json-peer_to_json offered (name-IsText, omega arith)

abbrev tor_hint : Entries
tor_hint = entry (codes "type") (string (codes "tor-tcp-v1")) end

abbrev tor_transit : Entries
tor_transit =
    entry (codes "abilities-v1") (array nil)
      (entry (codes "hints-v1") (array (cons (object tor_hint) nil)) end)

tor_hints : field (codes "hints-v1") tor_transit ≡ some (array (cons (object tor_hint) nil))
unfolding field bytes_eq
tor_hints = refl

tor_type : string_field (codes "type") tor_hint ≡ some (codes "tor-tcp-v1")
unfolding string_field bytes_eq
tor_type = refl

tor_unknown : contains (codes "tor-tcp-v1") hint_names ≡ false
unfolding contains bytes_eq
tor_unknown = refl

peer_from_json-HasUnknown_example :
    peer_from_json (object (entry (codes "transit") (object tor_transit) end)) ≡ none
peer_from_json-HasUnknown_example =
    peer_from_json-HasUnknown tor_transit (cons (object tor_hint) nil) tor_hints
      (inl (codes "tor-tcp-v1", tor_hint, refl, tor_type, tor_unknown))

abbrev pake_message : PhaseMessage
pake_message = record { pake_v1 = 8 ∷ 9 ∷ [] }

abbrev versions_message : VersionsMessage
versions_message = record { abilities = codes "resume-v1" ∷ []; app_versions = object end }

versions_fit : fits 126 versions_message.app_versions ≡ true
unfolding fits
versions_fit = refl

codecs-back_example :
    ((phase_codec toy_text hex some).from_slice
        ((phase_codec toy_text hex some).to_vec pake_message)
      ≡ some pake_message)
    × ((versions_codec toy_text).from_slice ((versions_codec toy_text).to_vec versions_message)
        ≡ some versions_message)
codecs-back_example =
    codecs-back toy_text hex some toy_text-IsFaithful (λ b. refl) pake_message versions_message
      versions_fit
