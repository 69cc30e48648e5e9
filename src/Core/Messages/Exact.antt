-- ===== src/Core/Messages/Exact.antt =====
-- That the derived reader of src/core/server_messages.rs takes an object for a message only if it
-- holds the fields of that message.
use magic_wormhole_rs.Common.{◌≡◌, Option, some, Bytes}
use magic_wormhole_rs.Common.Text.{codes}
use magic_wormhole_rs.Core.Json.{Json, string, Entries}
use magic_wormhole_rs.Core.Messages.{InboundMessage, error}
use magic_wormhole_rs.Core.Messages.Reads.{Once, Reads}

module _ (hex_decode : Bytes → Option Bytes) (es : Entries) where
  -- The fields of a message, given what is read of the one that it quotes.
  Made : Option InboundMessage → InboundMessage → Type 0
  Made orig (error e o) =
      Once (codes "type") (string (codes "error")) es
      × Once (codes "error") (string e) es
      × (orig ≡ some o)
  Made orig m = Reads hex_decode m es
