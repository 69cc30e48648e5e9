-- ===== src/Tests/Inbound.antt =====
-- The tests of src/core/server_messages.rs that read a message of the server. The text of a test
-- stands as its JSON tree.
use magic_wormhole_rs.Common.{◌≡◌, refl, [], ◌∷◌, Option, none, some, true, Bytes, bytes_eq}
use magic_wormhole_rs.Common.Text.{codes}
use magic_wormhole_rs.Core.Json.{
  Json, null, boolean, number, other_number, object, Entries, end, entry,
}
use magic_wormhole_rs.Core.Messages.{WelcomeMessage, InboundMessage, welcome, ack}
use magic_wormhole_rs.Core.Messages.Encoding.{tagged, with_string}
use magic_wormhole_rs.Core.Messages.Decoding.{read_tagged, inbound_from_json}

-- `hex::decode`, which the tests of a welcome do not call.
abbrev hex_decode : Bytes → Option Bytes
hex_decode text = some text

-- The welcomes of the tests: with what is inside, and the time that the server adds.
abbrev welcome_of : Entries → Entries → Json
welcome_of inside more = tagged (codes "welcome") (entry (codes "welcome") (object inside) more)

abbrev server_tx : Entries
server_tx = entry (codes "server_tx") (other_number (codes "1234.56")) end

abbrev silent : WelcomeMessage
silent = record {
  current_cli_version = none;
  motd = none;
  error = none;
  permission_required = none;
}

abbrev test_welcome3 : Option InboundMessage
test_welcome3 = inbound_from_json hex_decode (welcome_of end server_tx)

test_welcome3_passes : test_welcome3 ≡ some (welcome silent)
unfolding inbound_from_json read_tagged bytes_eq
test_welcome3_passes = refl

abbrev test_welcome4 : Option InboundMessage
test_welcome4 = inbound_from_json hex_decode (welcome_of end end)

test_welcome4_passes : test_welcome4 ≡ some (welcome silent)
unfolding inbound_from_json read_tagged bytes_eq
test_welcome4_passes = refl

abbrev test_welcome5 : Option InboundMessage
test_welcome5 =
    inbound_from_json hex_decode
      (welcome_of (with_string (codes "motd") (codes "hello world") end) server_tx)

test_welcome5_passes :
    test_welcome5 ≡ some (welcome (record silent { motd = some (codes "hello world") }))
unfolding inbound_from_json read_tagged bytes_eq
test_welcome5_passes = refl

abbrev dark_ritual : Json
dark_ritual = object (entry (codes "hocrux") (boolean true) end)

abbrev permission : Entries
permission = entry (codes "none") (object end) (
    entry (codes "hashcash")
      (object (
        entry (codes "bits") (number 6)
          (with_string (codes "resource") (codes "resource-string") end)))
      (entry (codes "dark-ritual") dark_ritual end))

abbrev test_welcome6 : Option InboundMessage
test_welcome6 = inbound_from_json hex_decode (
    welcome_of
      (with_string (codes "motd") (codes "hello world")
        (entry (codes "permission-required") (object permission) end))
      end)

test_welcome6_passes :
    test_welcome6
    ≡ some (
        welcome (record silent {
          motd = some (codes "hello world");
          permission_required = some (record {
            none_allowed = true;
            hashcash = some (record { bits = 6; resource = codes "resource-string" });
            other = (codes "dark-ritual", dark_ritual) ∷ [];
          });
        }))
unfolding inbound_from_json read_tagged bytes_eq
test_welcome6_passes = refl

abbrev test_ack : Option InboundMessage
test_ack = inbound_from_json hex_decode (tagged (codes "ack") (entry (codes "id") null server_tx))

test_ack_passes : test_ack ≡ some ack
unfolding inbound_from_json read_tagged bytes_eq
test_ack_passes = refl
