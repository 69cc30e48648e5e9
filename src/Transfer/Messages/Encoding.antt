-- ===== src/Transfer/Messages/Encoding.antt =====
-- What `#[derive(Serialize)]` writes for the messages of src/transfer/messages.rs, and for the hints
-- and abilities of src/transit.rs in them: an enum is an object with the variant's name as its only
-- key, or has its tag in the field `type`.
use magic_wormhole_rs.Common.{Option, none, some, Bytes, if◌then◌else◌}
use magic_wormhole_rs.Common.Text.{codes}
use magic_wormhole_rs.Util.Display.{utf8_from}
use magic_wormhole_rs.Core.Json.{
  Json, number, string, array, object, Entries, end, entry, ◌>>=◌, write_elements,
}
use magic_wormhole_rs.Core.Messages.Encoding.{tagged, with_string}
use magic_wormhole_rs.Transit.Hints.{Ability, DirectHint, other}
use magic_wormhole_rs.Transit.Hints
use magic_wormhole_rs.Transfer.Messages.{
  RelayHint, Hint, direct_tcp_v1, direct_udt_v1, relay_v1, TransitType, OfferType, message, file,
  directory, unknown, AnswerType, message_ack, file_ack, PeerMessage, offer, answer, error, transit,
  other_message, TransitAck,
}

-- A variant of an enum without a tag.
abbrev pub variant : Bytes → Json → Json
variant name v = object (entry name v end)

-- A `PathBuf` that is not UTF-8 is an error.
unfoldable pub path_to_json : Bytes → Option Json
unfolding utf8_from
path_to_json path = if utf8_from 0 0 0 path then some (string path) else none

unfoldable pub ability_to_json : Ability → Json
ability_to_json Hints.direct_tcp_v1 = tagged (codes "direct-tcp-v1") end
ability_to_json Hints.direct_udt_v1 = tagged (codes "direct-udt-v1") end
ability_to_json Hints.relay_v1 = tagged (codes "relay-v1") end
ability_to_json other = tagged (codes "other") end

unfoldable pub direct_hint_entries : DirectHint → Entries
direct_hint_entries h =
    with_string (codes "hostname") h.hostname (entry (codes "port") (number h.port) end)

unfoldable pub direct_hint_to_json : DirectHint → Json
unfolding direct_hint_entries
direct_hint_to_json h = object (direct_hint_entries h)

unfoldable pub relay_hint_entries : RelayHint → Entries
unfolding direct_hint_to_json
relay_hint_entries r =
    entry (codes "hints") (array (write_elements direct_hint_to_json r.hints)) end

unfoldable pub hint_to_json : Hint → Json
unfolding direct_hint_entries relay_hint_entries
hint_to_json (direct_tcp_v1 h) = tagged (codes "direct-tcp-v1") (direct_hint_entries h)
hint_to_json (direct_udt_v1 h) = tagged (codes "direct-udt-v1") (direct_hint_entries h)
hint_to_json (relay_v1 r) = tagged (codes "relay-v1") (relay_hint_entries r)

unfoldable pub transit_to_json : TransitType → Json
unfolding ability_to_json hint_to_json
transit_to_json t = object (
    entry (codes "abilities-v1") (array (write_elements ability_to_json t.abilities_v1))
      (entry (codes "hints-v1") (array (write_elements hint_to_json t.hints_v1)) end))

unfoldable pub offer_to_json : OfferType → Option Json
unfolding path_to_json
offer_to_json (message s) = some (variant (codes "message") (string s))
offer_to_json (file name size) = do
  path ← path_to_json name
  some (
      variant (codes "file")
        (object (entry (codes "filename") path (entry (codes "filesize") (number size) end))))
offer_to_json (directory name mode zipsize numbytes numfiles) = do
  path ← path_to_json name
  some (
      variant (codes "directory") (
        object (
          entry (codes "dirname") path (
            with_string (codes "mode") mode (
              entry (codes "zipsize") (number zipsize) (
                entry (codes "numbytes") (number numbytes)
                  (entry (codes "numfiles") (number numfiles) end)))))))
offer_to_json unknown = some (string (codes "unknown"))

unfoldable pub answer_to_json : AnswerType → Json
answer_to_json (message_ack s) = variant (codes "message_ack") (string s)
answer_to_json (file_ack s) = variant (codes "file_ack") (string s)

-- `PeerMessage::serialize_vec` up to the text; `none` is the panic of its `unwrap`.
unfoldable pub peer_to_json : PeerMessage → Option Json
unfolding offer_to_json answer_to_json transit_to_json
peer_to_json (offer o) = do v ← offer_to_json o; some (variant (codes "offer") v)
peer_to_json (answer a) = some (variant (codes "answer") (answer_to_json a))
peer_to_json (error s) = some (variant (codes "error") (string s))
peer_to_json (transit t) = some (variant (codes "transit") (transit_to_json t))
peer_to_json other_message = some (string (codes "unknown"))

-- `TransitAck::serialize_vec` up to the text.
unfoldable pub ack_to_json : TransitAck → Json
ack_to_json a = object (with_string (codes "ack") a.ack (with_string (codes "sha256") a.sha256 end))
