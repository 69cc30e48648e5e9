-- ===== src/Tests/Transfer.antt =====
-- The tests of src/transfer.rs and src/transfer/messages.rs. The writer of the tests sorts the keys
-- of an object; here they stand in the order of the fields.
use magic_wormhole_rs.Common.{◌≡◌, refl, [], ◌∷◌, Option, some}
use magic_wormhole_rs.Common.Text.{codes}
use magic_wormhole_rs.Core.Json.{Json, number, string, array, nil, cons, object, end, entry}
use magic_wormhole_rs.Core.Messages.Encoding.{tagged, with_string}
use magic_wormhole_rs.Transit.Hints
use magic_wormhole_rs.Transfer.Messages.{
  new_offer_message, new_offer_file, new_offer_directory, new_message_ack, new_file_ack,
  new_transit, new_direct_tcp, new_relay,
}
use magic_wormhole_rs.Transfer.Messages.Encoding.{variant, peer_to_json, ack_to_json}

abbrev test_message : Option Json
test_message = peer_to_json (new_offer_message (codes "hello from rust"))

test_message_passes :
    test_message
    ≡ some (variant (codes "offer") (variant (codes "message") (string (codes "hello from rust"))))
unfolding peer_to_json
test_message_passes = refl

abbrev test_offer_file : Option Json
test_offer_file = peer_to_json (new_offer_file (codes "somefile.txt") 34556)

test_offer_file_passes :
    test_offer_file
    ≡ some (
        variant (codes "offer") (
          variant (codes "file") (
            object (
              with_string
                (codes "filename")
                (codes "somefile.txt")
                (entry (codes "filesize") (number 34556) end)))))
unfolding peer_to_json
test_offer_file_passes = refl

abbrev test_offer_directory : Option Json
test_offer_directory =
    peer_to_json (new_offer_directory (codes "somedirectory") (codes "zipped") 45 1234 10)

test_offer_directory_passes :
    test_offer_directory
    ≡ some (
        variant (codes "offer") (
          variant (codes "directory") (
            object (
              with_string (codes "dirname") (codes "somedirectory") (
                with_string (codes "mode") (codes "zipped") (
                  entry (codes "zipsize") (number 45) (
                    entry
                      (codes "numbytes")
                      (number 1234)
                      (entry (codes "numfiles") (number 10) end))))))))
unfolding peer_to_json
test_offer_directory_passes = refl

abbrev test_message_ack : Option Json
test_message_ack = peer_to_json (new_message_ack (codes "ok"))

test_message_ack_passes :
    test_message_ack
    ≡ some (variant (codes "answer") (variant (codes "message_ack") (string (codes "ok"))))
unfolding peer_to_json
test_message_ack_passes = refl

abbrev test_file_ack : Option Json
test_file_ack = peer_to_json (new_file_ack (codes "ok"))

test_file_ack_passes :
    test_file_ack
    ≡ some (variant (codes "answer") (variant (codes "file_ack") (string (codes "ok"))))
unfolding peer_to_json
test_file_ack_passes = refl

abbrev test_transit_ack : Json
test_transit_ack = ack_to_json (record { ack = codes "ok"; sha256 = codes "deadbeaf" })

test_transit_ack_passes :
    test_transit_ack
    ≡ object (
        with_string
          (codes "ack")
          (codes "ok")
          (with_string (codes "sha256") (codes "deadbeaf") end))
unfolding ack_to_json
test_transit_ack_passes = refl

abbrev test_transit : Option Json
test_transit = peer_to_json (
    new_transit (Hints.direct_tcp_v1 ∷ Hints.relay_v1 ∷ []) (
      new_direct_tcp (codes "192.168.1.8") 46295
      ∷ new_relay
          (record { hostname = codes "magic-wormhole-transit.debian.net"; port = 4001 } ∷ [])
      ∷ []))

test_transit_passes :
    test_transit
    ≡ some (
        variant (codes "transit") (
          object (
            entry
              (codes "abilities-v1")
              (array (
                cons
                  (tagged (codes "direct-tcp-v1") end)
                  (cons (tagged (codes "relay-v1") end) nil)))
              (entry
                (codes "hints-v1")
                (array (
                  cons
                    (tagged (codes "direct-tcp-v1") (
                      with_string
                        (codes "hostname")
                        (codes "192.168.1.8")
                        (entry (codes "port") (number 46295) end)))
                    (cons
                      (tagged (codes "relay-v1") (
                        entry
                          (codes "hints")
                          (array (
                            cons
                              (object (
                                with_string
                                  (codes "hostname")
                                  (codes "magic-wormhole-transit.debian.net")
                                  (entry (codes "port") (number 4001) end)))
                              nil))
                          end))
                      nil)))
                end))))
unfolding peer_to_json
test_transit_passes = refl
