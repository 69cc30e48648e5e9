-- ===== src/Core/Messages/Encoding.antt =====
-- What `#[derive(Serialize)]` of src/core/server_messages.rs writes for the messages that the client
-- sends: the tag `type` with the variant's name in kebab case, and then the fields.
use magic_wormhole_rs.Common.{Bytes}
use magic_wormhole_rs.Common.Text.{codes}
use magic_wormhole_rs.Core.Json.{Json, number, string, object, Entries, end, entry}
use magic_wormhole_rs.Core.Names.{Mood_name}
use magic_wormhole_rs.Core.Messages.{
  SubmitPermission, hashcash, OutboundMessage, submit_permission, bind, list, allocate, claim,
  release, open_mailbox, add, close, ping,
}

-- An enum whose tag is the field `type`.
abbrev pub tagged : Bytes → Entries → Json
tagged type es = object (entry (codes "type") (string type) es)

-- One field with a string.
abbrev pub with_string : Bytes → Bytes → Entries → Entries
with_string key s es = entry key (string s) es

-- `SubmitPermission`, whose tag is the field `method`.
unfoldable pub permission_entries : SubmitPermission → Entries
permission_entries (hashcash stamp) =
    with_string (codes "method") (codes "hashcash") (with_string (codes "stamp") stamp end)

module _ (hex_encode : Bytes → Bytes) where
  unfoldable pub outbound_to_json : OutboundMessage → Json
  unfolding permission_entries Mood_name
  outbound_to_json (submit_permission p) = tagged (codes "submit-permission") (permission_entries p)
  outbound_to_json (bind appid side) =
      tagged (codes "bind")
        (with_string (codes "appid") appid (with_string (codes "side") side end))
  outbound_to_json list = tagged (codes "list") end
  outbound_to_json allocate = tagged (codes "allocate") end
  outbound_to_json (claim nameplate) =
      tagged (codes "claim") (with_string (codes "nameplate") nameplate end)
  outbound_to_json (release nameplate) =
      tagged (codes "release") (with_string (codes "nameplate") nameplate end)
  outbound_to_json (open_mailbox mailbox) =
      tagged (codes "open") (with_string (codes "mailbox") mailbox end)
  outbound_to_json (add phase body) =
      tagged (codes "add")
        (with_string (codes "phase") phase (with_string (codes "body") (hex_encode body) end))
  outbound_to_json (close mailbox mood) =
      tagged (codes "close")
        (with_string (codes "mailbox") mailbox (with_string (codes "mood") (Mood_name mood) end))
  outbound_to_json (ping n) = tagged (codes "ping") (entry (codes "ping") (number n) end)
