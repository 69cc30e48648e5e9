-- ===== src/Core/Key/Encoding.antt =====
-- What the derived `Serialize` and `Deserialize` of src/core/key.rs make of the messages of the
-- handshake; `none` is serde's error.
use magic_wormhole_rs.Common.{List, [], Option, none, some, Bytes}
use magic_wormhole_rs.Common.Text.{codes}
use magic_wormhole_rs.Core.Json.{
  Json, null, string, array, object, end, entry, ◌>>=◌, optional_field, read_object, read_string,
  read_array, write_elements,
}
use magic_wormhole_rs.Core.Messages.{Value}
use magic_wormhole_rs.Core.Messages.Encoding.{with_string}
use magic_wormhole_rs.Core.Messages.Decoding.{string_field}
use magic_wormhole_rs.Core.Key.{PhaseMessage, VersionsMessage}

unfoldable pub phase_to_json : (Bytes → Bytes) → PhaseMessage → Json
phase_to_json hex_encode m = object (with_string (codes "pake_v1") (hex_encode m.pake_v1) end)

unfoldable pub phase_from_json : (Bytes → Option Bytes) → Json → Option PhaseMessage
unfolding read_object string_field
phase_from_json hex_decode v = do
  es ← read_object v
  text ← string_field (codes "pake_v1") es
  b ← hex_decode text
  some (record { pake_v1 = b })

unfoldable pub versions_to_json : VersionsMessage → Json
versions_to_json m = object (
    entry (codes "abilities") (array (write_elements string m.abilities))
      (entry (codes "app_versions") m.app_versions end))

-- `#[serde(default)]`: a field that is missing is empty.
unfoldable pub default_abilities : Option Json → Option (List Bytes)
unfolding read_string
default_abilities none = some []
default_abilities (some v) = read_array read_string v

unfoldable pub default_versions : Option Json → Value
default_versions none = null
default_versions (some v) = v

unfoldable pub versions_from_json : Json → Option VersionsMessage
unfolding read_object optional_field default_abilities default_versions
versions_from_json v = do
  es ← read_object v
  a ← optional_field (codes "abilities") es
  list ← default_abilities a
  app ← optional_field (codes "app_versions") es
  some (record { abilities = list; app_versions = default_versions app })
