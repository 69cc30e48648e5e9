-- ===== src/Core/Messages/Reads.antt =====
-- What the JSON of each message of the server must hold, told field by field, and that the derived
-- reader of src/core/server_messages.rs takes it for that message.
use magic_wormhole_rs.Common.{
  ◌<◌, ◌^◌, ◌≡◌, ◌≢◌, refl, ap, ◌⊎◌, inl, inr, List, [], ◌∷◌, Option, some, false, Bytes, bytes_eq,
  bytes_eq_iff, Bool-cases, All,
}
use magic_wormhole_rs.Common.Text.{codes}
use magic_wormhole_rs.Core.Json.{
  Json, number, string, array, object, Elements, nil, cons, Entries, end, entry, has_key, field,
  read_string, read_object, read_elements,
}
use magic_wormhole_rs.Core.Json.Laws.{read_number-number}
use magic_wormhole_rs.Core.Names.{Nameplate}
use magic_wormhole_rs.Core.Messages.{
  nameplates_of, entries_of, InboundMessage, welcome, nameplates, allocated, claimed, released,
  message, closed, ack, pong, error, unknown,
}
use magic_wormhole_rs.Core.Messages.Decoding.{
  string_field, read_encrypted, read_nameplate_entry, read_nameplates, read_welcome, read_variant,
  read_tagged, inbound_from_json,
}
use magic_wormhole_rs.Core.Messages.Lenient.{read_orig-field}

-- No entry has the key.
unfoldable pub Absent : Bytes → Entries → Type 0
Absent key end = Unit
Absent key (entry k v es) = (k ≢ key) × Absent key es

-- One entry has the key, and it has this value.
unfoldable pub Once : Bytes → Json → Entries → Type 0
Once key v end = ⊥
Once key v (entry k w es) = ((k ≡ key) × (w ≡ v) × Absent key es) ⊎ ((k ≢ key) × Once key v es)

-- An array of objects, each with one `id`.
unfoldable pub Listed : List Nameplate → Elements → Type 0
Listed [] nil = Unit
Listed (n ∷ ns) (cons v vs) =
    (es : Entries) × (v ≡ object es) × Once (codes "id") (string n) es × Listed ns vs
Listed _ _ = ⊥

-- The types of the messages that the client knows.
abbrev pub inbound_types : List Bytes
inbound_types =
    codes "welcome"
    ∷ codes "nameplates"
    ∷ codes "allocated"
    ∷ codes "claimed"
    ∷ codes "released"
    ∷ codes "message"
    ∷ codes "closed"
    ∷ codes "ack"
    ∷ codes "pong"
    ∷ codes "error"
    ∷ []

-- An object whose type is this one.
abbrev pub Typed : Bytes → Entries → Type 0
Typed type es = Once (codes "type") (string type) es

-- The fields of each message; any others may stand beside them, in any order.
unfoldable pub Reads : (Bytes → Option Bytes) → InboundMessage → Entries → Type 0
Reads hex_decode (welcome w) es =
    Typed (codes "welcome") es
    × (v : Json) × Once (codes "welcome") v es
    × (read_welcome v ≡ some w)
Reads hex_decode (nameplates ns) es =
    Typed (codes "nameplates") es
    × (vs : Elements) × Once (codes "nameplates") (array vs) es
    × Listed ns vs
Reads hex_decode (allocated n) es =
    Typed (codes "allocated") es × Once (codes "nameplate") (string n) es
Reads hex_decode (claimed m) es = Typed (codes "claimed") es × Once (codes "mailbox") (string m) es
Reads hex_decode released es = Typed (codes "released") es
Reads hex_decode (message m) es =
    Typed (codes "message") es
    × Once (codes "side") (string m.side) es
    × Once (codes "phase") (string m.phase) es
    × (text : Bytes) × Once (codes "body") (string text) es
    × (hex_decode text ≡ some m.body)
Reads hex_decode closed es = Typed (codes "closed") es
Reads hex_decode ack es = Typed (codes "ack") es
Reads hex_decode (pong n) es =
    Typed (codes "pong") es × Once (codes "pong") (number n) es × (n < 2 ^ 64)
Reads hex_decode (error e o) es =
    Typed (codes "error") es
    × Once (codes "error") (string e) es
    × (quoted : Entries) × Once (codes "orig") (object quoted) es
    × Reads hex_decode o quoted
Reads hex_decode unknown es = (type : Bytes) × Typed type es × All (λ t. type ≢ t) inbound_types

differ : (a b : Bytes) → a ≢ b → bytes_eq a b ≡ false
differ a b n = elim (Bool-cases (bytes_eq a b)) [
  | inl same ↦ absurd (n ((bytes_eq_iff a b).0 same))
  | inr other ↦ other
]

Absent-has_key : (key : Bytes) (es : Entries) → Absent key es → has_key key es ≡ false
unfolding Absent has_key
Absent-has_key key end a = refl
Absent-has_key key (entry k v es) (n, a) = rw (differ k key n) (Absent-has_key key es a)

Once-field : (key : Bytes) (v : Json) (es : Entries) → Once key v es → field key es ≡ some v
unfolding Once field
Once-field key v end o = absurd o
Once-field key v (entry k w es) (inl (here, same, a)) =
    rw ((bytes_eq_iff k key).1 here, Absent-has_key key es a) (ap some same)
Once-field key v (entry k w es) (inr (n, o)) = rw (differ k key n) (Once-field key v es o)

-- The entry of one nameplate.
read_entry :
    (n : Nameplate) (es : Entries)
    → Once (codes "id") (string n) es
    → read_nameplate_entry (object es) ≡ some (record { id = n })
unfolding read_nameplate_entry string_field read_string read_object
read_entry n es o = rw (Once-field (codes "id") (string n) es o) refl

Listed-read_elements :
    (ns : List Nameplate) (vs : Elements)
    → Listed ns vs
    → read_elements read_nameplate_entry vs ≡ some (entries_of ns)
unfolding Listed entries_of
Listed-read_elements [] nil l = refl
Listed-read_elements [] (cons v vs) l = absurd l
Listed-read_elements (n ∷ ns) nil l = absurd l
Listed-read_elements (n ∷ ns) (cons v vs) (es, e, o, l) =
    rw (e, read_entry n es o, Listed-read_elements ns vs l) refl

nameplates_of-entries_of : (ns : List Nameplate) → nameplates_of (entries_of ns) ≡ ns
unfolding nameplates_of entries_of
nameplates_of-entries_of [] = refl
nameplates_of-entries_of (n ∷ ns) = ap (λ xs. n ∷ xs) (nameplates_of-entries_of ns)

Listed-read_nameplates :
    (ns : List Nameplate) (vs : Elements) → Listed ns vs → read_nameplates (array vs) ≡ some ns
unfolding read_nameplates
Listed-read_nameplates ns vs l =
    rw (Listed-read_elements ns vs l) (ap some (nameplates_of-entries_of ns))

module _ (hex_decode : Bytes → Option Bytes) where
  -- An object with exactly one field of each name that its type of message asks for, with values of
  -- the right form, among whatever others and in any order, is read as the message with these values;
  -- one whose type is none of the ten that the client knows is read as an unknown message.
  pub inbound_from_json-Reads :
      (m : InboundMessage) (es : Entries)
      → Reads hex_decode m es
      → inbound_from_json hex_decode (object es) ≡ some m
  unfolding Reads inbound_from_json read_tagged read_variant read_encrypted string_field read_string
      bytes_eq
  inbound_from_json-Reads (welcome w) es (t, v, f, r) =
      rw
        (
          Once-field (codes "type") (string (codes "welcome")) es t,
          Once-field (codes "welcome") v es f,
          r,
        )
        refl
  inbound_from_json-Reads (nameplates ns) es (t, vs, f, l) =
      rw
        (
          Once-field (codes "type") (string (codes "nameplates")) es t,
          Once-field (codes "nameplates") (array vs) es f,
          Listed-read_nameplates ns vs l,
        )
        refl
  inbound_from_json-Reads (allocated n) es (t, f) =
      rw
        (
          Once-field (codes "type") (string (codes "allocated")) es t,
          Once-field (codes "nameplate") (string n) es f,
        )
        refl
  inbound_from_json-Reads (claimed b) es (t, f) =
      rw
        (
          Once-field (codes "type") (string (codes "claimed")) es t,
          Once-field (codes "mailbox") (string b) es f,
        )
        refl
  inbound_from_json-Reads released es t =
      rw (Once-field (codes "type") (string (codes "released")) es t) refl
  inbound_from_json-Reads (message m) es (t, s, p, text, b, h) =
      rw
        (
          Once-field (codes "type") (string (codes "message")) es t,
          Once-field (codes "side") (string m.side) es s,
          Once-field (codes "phase") (string m.phase) es p,
          Once-field (codes "body") (string text) es b,
          h,
        )
        refl
  inbound_from_json-Reads closed es t =
      rw (Once-field (codes "type") (string (codes "closed")) es t) refl
  inbound_from_json-Reads ack es t = rw (Once-field (codes "type") (string (codes "ack")) es t) refl
  inbound_from_json-Reads (pong n) es (t, f, l) =
      rw
        (
          Once-field (codes "type") (string (codes "pong")) es t,
          Once-field (codes "pong") (number n) es f,
          read_number-number (2 ^ 64) n l,
        )
        refl
  inbound_from_json-Reads (error e o) es (t, f, quoted, q, r) =
      rw
        (
          Once-field (codes "type") (string (codes "error")) es t,
          read_orig-field hex_decode es,
          Once-field (codes "orig") (object quoted) es q,
          Once-field (codes "error") (string e) es f,
          inbound_from_json-Reads o quoted r,
        )
        refl
  inbound_from_json-Reads unknown es
        (type, t, (n1, (n2, (n3, (n4, (n5, (n6, (n7, (n8, (n9, (n10, u))))))))))) =
      rw
        (
          Once-field (codes "type") (string type) es t,
          differ type (codes "welcome") n1,
          differ type (codes "nameplates") n2,
          differ type (codes "allocated") n3,
          differ type (codes "claimed") n4,
          differ type (codes "released") n5,
          differ type (codes "message") n6,
          differ type (codes "closed") n7,
          differ type (codes "ack") n8,
          differ type (codes "pong") n9,
          differ type (codes "error") n10,
        )
        refl
