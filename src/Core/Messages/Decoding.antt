-- ===== src/Core/Messages/Decoding.antt =====
-- What `#[derive(Deserialize)]` of src/core/server_messages.rs makes of the JSON that the server
-- sends; `none` is serde's error. Fields that a type does not name are ignored, but where it says so.
use magic_wormhole_rs.Common.{
  ◌^◌, List, [], ◌∷◌, Option, none, some, Bool, true, false, ◌||◌, Bytes, bytes_eq, if◌then◌else◌,
}
use magic_wormhole_rs.Common.Text.{codes}
use magic_wormhole_rs.Core.Json.{
  Json, null, object, Entries, end, entry, ◌>>=◌, has_key, field, optional_field, read_object,
  read_string, read_number, read_option, read_array,
}
use magic_wormhole_rs.Core.Names.{Nameplate}
use magic_wormhole_rs.Core.Messages.{
  Value, NameplateEntry, nameplates_of, HashcashPermission, PermissionRequired, WelcomeMessage,
  EncryptedMessage, InboundMessage, welcome, nameplates, allocated, claimed, released, message,
  closed, ack, pong, error, unknown,
}

-- A field with a string that must be there.
unfoldable pub string_field : Bytes → Entries → Option Bytes
unfolding field read_string
string_field key es = do v ← field key es; read_string v

-- `PermissionRequired::deserialize_none`: an object or null.
unfoldable pub deserialize_none : Json → Option Bool
deserialize_none null = some false
deserialize_none (object es) = some true
deserialize_none _ = none

-- `deny_unknown_fields`: no key but the two of `HashcashPermission`.
unfoldable pub only_hashcash_fields : Entries → Bool
only_hashcash_fields end = true
only_hashcash_fields (entry k v es) =
    let rest = only_hashcash_fields es in
    if bytes_eq k (codes "bits") || bytes_eq k (codes "resource") then rest else false

unfoldable pub read_hashcash : Json → Option HashcashPermission
unfolding read_object only_hashcash_fields field read_number string_field
read_hashcash v = do
  es ← read_object v
  b ← field (codes "bits") es
  n ← read_number (2 ^ 32) b
  r ← string_field (codes "resource") es
  if only_hashcash_fields es then some (record { bits = n; resource = r }) else none

-- The flattened map: the entries that are no field of `PermissionRequired`, the last of each key.
unfoldable pub other_entries : Entries → List (Bytes × Value)
unfolding has_key
other_entries end = []
other_entries (entry k v es) =
    let rest = other_entries es in
    if bytes_eq k (codes "none") || bytes_eq k (codes "hashcash") || has_key k es
    then rest
    else (k, v) ∷ rest

-- A field with `deserialize_with` and no default must be there.
unfoldable pub read_permission : Json → Option PermissionRequired
unfolding read_object field optional_field deserialize_none read_hashcash other_entries
read_permission v = do
  es ← read_object v
  n ← field (codes "none") es
  allowed ← deserialize_none n
  f ← optional_field (codes "hashcash") es
  h ← read_option read_hashcash f
  some (record { none_allowed = allowed; hashcash = h; other = other_entries es })

unfoldable pub read_welcome : Json → Option WelcomeMessage
unfolding read_object optional_field read_string read_permission
read_welcome v = do
  es ← read_object v
  cli ← (optional_field (codes "current_cli_version") es >>= read_option read_string)
  m ← (optional_field (codes "motd") es >>= read_option read_string)
  e ← (optional_field (codes "error") es >>= read_option read_string)
  p ← (optional_field (codes "permission-required") es >>= read_option read_permission)
  some (record { current_cli_version = cli; motd = m; error = e; permission_required = p })

unfoldable pub read_nameplate_entry : Json → Option NameplateEntry
unfolding read_object string_field
read_nameplate_entry v = do
  es ← read_object v
  i ← string_field (codes "id") es
  some (record { id = i })

-- `Nameplate_::deserialize`
unfoldable pub read_nameplates : Json → Option (List Nameplate)
unfolding read_nameplate_entry nameplates_of
read_nameplates v = do entries ← read_array read_nameplate_entry v; some (nameplates_of entries)

module _ (hex_decode : Bytes → Option Bytes) where
  unfoldable pub read_encrypted : Entries → Option EncryptedMessage
  unfolding string_field
  read_encrypted es = do
    s ← string_field (codes "side") es
    p ← string_field (codes "phase") es
    text ← string_field (codes "body") es
    b ← hex_decode text
    some (record { side = s; phase = p; body = b })

  -- The variant that a tag names, read from the entries beside it, with what is read of their
  -- `orig`. Any other tag is `Unknown`.
  unfoldable pub read_variant : Bytes → Entries → Option InboundMessage → Option InboundMessage
  unfolding field string_field read_number read_welcome read_nameplates read_encrypted
  read_variant type es orig =
      if bytes_eq type (codes "welcome")
      then (field (codes "welcome") es >>= read_welcome >>= λ w. some (welcome w))
      else if bytes_eq type (codes "nameplates")
      then (field (codes "nameplates") es >>= read_nameplates >>= λ ns. some (nameplates ns))
      else if bytes_eq type (codes "allocated")
      then (string_field (codes "nameplate") es >>= λ n. some (allocated n))
      else if bytes_eq type (codes "claimed")
      then (string_field (codes "mailbox") es >>= λ m. some (claimed m))
      else if bytes_eq type (codes "released")
      then some released
      else if bytes_eq type (codes "message")
      then (read_encrypted es >>= λ m. some (message m))
      else if bytes_eq type (codes "closed")
      then some closed
      else if bytes_eq type (codes "ack")
      then some ack
      else if bytes_eq type (codes "pong")
      then (field (codes "pong") es >>= read_number (2 ^ 64) >>= λ n. some (pong n))
      else if bytes_eq type (codes "error")
      then (string_field (codes "error") es >>= λ e. orig >>= λ o. some (error e o))
      else some unknown

  -- `InboundMessage`: the tag is the field `type`.
  unfoldable pub read_tagged : Entries → Option InboundMessage → Option InboundMessage
  unfolding string_field read_variant
  read_tagged es orig = do type ← string_field (codes "type") es; read_variant type es orig

  -- With what is read of the field `orig`, which is a message too.
  unfoldable mutual
    unfolding read_tagged has_key

    pub inbound_from_json : Json → Option InboundMessage
    inbound_from_json (object es) = read_tagged es (read_orig es)
    inbound_from_json _ = none

    pub read_orig : Entries → Option InboundMessage
    read_orig end = none
    read_orig (entry k v es) =
        let here = inbound_from_json v in
        let rest = read_orig es in
        let again = has_key (codes "orig") es in
        if bytes_eq k (codes "orig") then (if again then none else here) else rest
