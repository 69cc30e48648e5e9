-- ===== src/Tests/ServerMessages.antt =====
-- The tests of src/core/server_messages.rs. Each is the value that its test computes, and what the
-- test asserts of it; the text of a test stands as its JSON tree.
use magic_wormhole_rs.Common.{ℕ, ◌+◌, ◌/◌, ◌%◌, ◌≡◌, refl, [], ◌∷◌, Bytes, ltb, if◌then◌else◌}
use magic_wormhole_rs.Common.Text.{codes}
use magic_wormhole_rs.Core.Json.{Json, end}
use magic_wormhole_rs.Core.Names.{happy, errory, scared, Mood_name}
use magic_wormhole_rs.Core.Messages.{
  hashcash, submit_permission, bind, list, allocate, claim, release, open_mailbox, add, close,
}
use magic_wormhole_rs.Core.Messages.Encoding.{
  tagged, with_string, permission_entries, outbound_to_json,
}

-- `hex::encode` on the bytes of the tests.
abbrev digit : ℕ → ℕ
digit n = if ltb n 10 then 48 + n else 87 + n

abbrev hex_encode : Bytes → Bytes
hex_encode [] = []
hex_encode (b ∷ bs) = digit (b / 16) ∷ digit (b % 16) ∷ hex_encode bs

abbrev test_bind : Json
test_bind = outbound_to_json hex_encode (bind (codes "appid") (codes "side1"))

test_bind_passes :
    test_bind
    ≡ tagged (codes "bind") (
        with_string
          (codes "appid")
          (codes "appid")
          (with_string (codes "side") (codes "side1") end))
unfolding outbound_to_json
test_bind_passes = refl

abbrev test_list : Json
test_list = outbound_to_json hex_encode list

test_list_passes : test_list ≡ tagged (codes "list") end
unfolding outbound_to_json
test_list_passes = refl

abbrev test_allocate : Json
test_allocate = outbound_to_json hex_encode allocate

test_allocate_passes : test_allocate ≡ tagged (codes "allocate") end
unfolding outbound_to_json
test_allocate_passes = refl

abbrev test_claim : Json
test_claim = outbound_to_json hex_encode (claim (codes "nameplate1"))

test_claim_passes :
    test_claim ≡ tagged (codes "claim") (with_string (codes "nameplate") (codes "nameplate1") end)
unfolding outbound_to_json
test_claim_passes = refl

abbrev test_release : Json
test_release = outbound_to_json hex_encode (release (codes "nameplate1"))

test_release_passes :
    test_release
    ≡ tagged (codes "release") (with_string (codes "nameplate") (codes "nameplate1") end)
unfolding outbound_to_json
test_release_passes = refl

abbrev test_open : Json
test_open = outbound_to_json hex_encode (open_mailbox (codes "mailbox1"))

test_open_passes :
    test_open ≡ tagged (codes "open") (with_string (codes "mailbox") (codes "mailbox1") end)
unfolding outbound_to_json
test_open_passes = refl

abbrev test_add : Json
test_add = outbound_to_json hex_encode (add (codes "phase1") (codes "body"))

test_add_passes :
    test_add
    ≡ tagged (codes "add") (
        with_string
          (codes "phase")
          (codes "phase1")
          (with_string (codes "body") (codes "626f6479") end))
unfolding outbound_to_json
test_add_passes = refl

abbrev test_close : Json
test_close = outbound_to_json hex_encode (close (codes "mailbox1") happy)

test_close_passes :
    test_close
    ≡ tagged (codes "close") (
        with_string
          (codes "mailbox")
          (codes "mailbox1")
          (with_string (codes "mood") (codes "happy") end))
unfolding outbound_to_json Mood_name
test_close_passes = refl

abbrev test_close_errory : Json
test_close_errory = outbound_to_json hex_encode (close (codes "mailbox1") errory)

test_close_errory_passes :
    test_close_errory
    ≡ tagged (codes "close") (
        with_string
          (codes "mailbox")
          (codes "mailbox1")
          (with_string (codes "mood") (codes "errory") end))
unfolding outbound_to_json Mood_name
test_close_errory_passes = refl

abbrev test_close_scared : Json
test_close_scared = outbound_to_json hex_encode (close (codes "mailbox1") scared)

test_close_scared_passes :
    test_close_scared
    ≡ tagged (codes "close") (
        with_string
          (codes "mailbox")
          (codes "mailbox1")
          (with_string (codes "mood") (codes "scary") end))
unfolding outbound_to_json Mood_name
test_close_scared_passes = refl

abbrev test_submit_permissions : Json
test_submit_permissions = outbound_to_json hex_encode (submit_permission (hashcash (codes "stamp")))

test_submit_permissions_passes :
    test_submit_permissions
    ≡ tagged (codes "submit-permission") (
        with_string
          (codes "method")
          (codes "hashcash")
          (with_string (codes "stamp") (codes "stamp") end))
unfolding outbound_to_json permission_entries
test_submit_permissions_passes = refl
