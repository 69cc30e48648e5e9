-- ===== src/Core/Key/Codecs.antt =====
-- The messages of the handshake are read back from their text.
use magic_wormhole_rs.Common.{◌≡◌, refl, List, [], ◌∷◌, Option, some, true, Bytes, bytes_eq, All}
use magic_wormhole_rs.Core.Crypto.{Codec}
use magic_wormhole_rs.Core.Json.{
  string, fits, fits_elements, fits_entries, field, optional_field, read_object, read_string,
  write_elements,
}
use magic_wormhole_rs.Core.Json.Laws.{read_elements-write_elements}
use magic_wormhole_rs.Core.Json.Text.{JsonText, IsFaithful, codec, codec-back}
use magic_wormhole_rs.Core.Messages.Decoding.{string_field}
use magic_wormhole_rs.Core.Key.{PhaseMessage, VersionsMessage}
use magic_wormhole_rs.Core.Key.Encoding.{
  phase_to_json, phase_from_json, versions_to_json, versions_from_json, default_abilities,
  default_versions,
}

abbrev pub phase_codec : JsonText → (Bytes → Bytes) → (Bytes → Option Bytes) → Codec PhaseMessage
phase_codec text hex_encode hex_decode =
    codec text (phase_to_json hex_encode) (phase_from_json hex_decode)

abbrev pub versions_codec : JsonText → Codec VersionsMessage
versions_codec text = codec text versions_to_json versions_from_json

strings-back : (xs : List Bytes) → All (λ s. read_string (string s) ≡ some s) xs
unfolding read_string
strings-back [] = tt
strings-back (s ∷ xs) = (refl, strings-back xs)

strings-fit : (xs : List Bytes) → fits_elements 125 (write_elements string xs) ≡ true
unfolding fits_elements fits
strings-fit [] = refl
strings-fit (s ∷ xs) = strings-fit xs

versions-back : (m : VersionsMessage) → versions_from_json (versions_to_json m) ≡ some m
unfolding versions_from_json versions_to_json default_abilities default_versions read_object
    optional_field bytes_eq
versions-back m =
    rw (read_elements-write_elements read_string string m.abilities (strings-back m.abilities)) refl

versions-fit :
    (m : VersionsMessage) → fits 126 m.app_versions ≡ true → fits 127 (versions_to_json m) ≡ true
unfolding fits fits_entries versions_to_json
versions-fit m f = rw (strings-fit m.abilities, f) refl

phase-back :
    (hex_encode : Bytes → Bytes) (hex_decode : Bytes → Option Bytes)
    → ((b : Bytes) → hex_decode (hex_encode b) ≡ some b)
    → (p : PhaseMessage) → phase_from_json hex_decode (phase_to_json hex_encode p) ≡ some p
unfolding phase_from_json phase_to_json string_field field bytes_eq read_object read_string
phase-back hex_encode hex_decode hex p = rw (hex p.pake_v1) refl

phase-fits :
    (hex_encode : Bytes → Bytes) (p : PhaseMessage) → fits 127 (phase_to_json hex_encode p) ≡ true
unfolding fits fits_entries phase_to_json
phase-fits hex_encode p = refl

-- If serde_json reads back what it writes within its limits, and hex::decode what hex::encode writes,
-- then a PAKE message is read back from its text, and so is a version message, when the application's
-- version in it is within the limits.
pub codecs-back :
    (text : JsonText) (hex_encode : Bytes → Bytes) (hex_decode : Bytes → Option Bytes)
    → IsFaithful text
    → ((b : Bytes) → hex_decode (hex_encode b) ≡ some b)
    → (p : PhaseMessage) (m : VersionsMessage) → fits 126 m.app_versions ≡ true
    → ((phase_codec text hex_encode hex_decode).from_slice
          ((phase_codec text hex_encode hex_decode).to_vec p)
        ≡ some p)
      × ((versions_codec text).from_slice ((versions_codec text).to_vec m) ≡ some m)
codecs-back text hex_encode hex_decode faithful hex p m f = (
  codec-back text (phase_to_json hex_encode) (phase_from_json hex_decode) p faithful
      (phase-fits hex_encode p) (phase-back hex_encode hex_decode hex p),
  codec-back text versions_to_json versions_from_json m faithful (versions-fit m f)
      (versions-back m),
)
