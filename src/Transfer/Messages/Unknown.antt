-- ===== src/Transfer/Messages/Unknown.antt =====
-- What becomes of message and hint types that this version does not know.
use magic_wormhole_rs.Common.{
  ◌≡◌, ◌≢◌, refl, List, [], ◌∷◌, none, some, false, Bytes, bytes_eq, contains, inl, inr, ◌⊎◌, ◌∙◌,
  contains-cons,
}
use magic_wormhole_rs.Common.Text.{codes}
use magic_wormhole_rs.Core.Json.{
  Json, null, string, array, object, Elements, nil, cons, Entries, end, entry, field, read_object,
  read_array, read_elements,
}
use magic_wormhole_rs.Core.Json.Laws.{none->>=}
use magic_wormhole_rs.Core.Messages.Decoding.{string_field}
use magic_wormhole_rs.Transfer.Messages.{other_message}
use magic_wormhole_rs.Transfer.Messages.Decoding.{
  only_entry, without_content, hint_tagged, hint_from_json, transit_from_json, peer_variant,
  peer_from_json, ability_from_json,
}

abbrev pub peer_names : List Bytes
peer_names = codes "offer" ∷ codes "answer" ∷ codes "error" ∷ codes "transit" ∷ []

abbrev pub hint_names : List Bytes
hint_names = codes "direct-tcp-v1" ∷ codes "direct-udt-v1" ∷ codes "relay-v1" ∷ []

peer_variant-other :
    (k : Bytes) (v : Json)
    → contains k peer_names ≡ false
    → peer_variant k v ≡ without_content other_message v
unfolding peer_variant
peer_variant-other k v h =
    let (a, h1) = contains-cons k (codes "offer") _ h in
    let (b, h2) = contains-cons k (codes "answer") _ h1 in
    let (c, h3) = contains-cons k (codes "error") _ h2 in
    let (d, h4) = contains-cons k (codes "transit") _ h3 in rw (a, b, c, d) refl

without_content-full : (v : Json) → v ≢ null → without_content other_message v ≡ none
unfolding without_content
without_content-full null full = absurd (full refl)
without_content-full _ full = refl

-- A message of a type that this version does not know is read as unknown when it is a name alone, or
-- a name with null; with any other content it is an error.
pub peer_from_json-without_content :
    (k : Bytes) (v : Json)
    → contains k peer_names ≡ false
    → v ≢ null
    → (peer_from_json (string k) ≡ some other_message)
      × (peer_from_json (object (entry k null end)) ≡ some other_message)
      × (peer_from_json (object (entry k v end)) ≡ none)
unfolding peer_from_json only_entry
peer_from_json-without_content k v h full =
    let unit : peer_variant k null ≡ some other_message =
      peer_variant-other k null h ∙ (unfold without_content in refl) in
    (unit, unit, peer_variant-other k v h ∙ without_content-full v full)

-- A hint of an unknown type stands in the array.
abbrev pub HasUnknown : Elements → Type 0
HasUnknown nil = ⊥
HasUnknown (cons v vs) =
    ((type : Bytes) × (es : Entries) × (v ≡ object es)
      × (string_field (codes "type") es ≡ some type)
      × (contains type hint_names ≡ false))
    ⊎ HasUnknown vs

hint_tagged-other :
    (type : Bytes) (es : Entries) → contains type hint_names ≡ false → hint_tagged type es ≡ none
unfolding hint_tagged
hint_tagged-other type es h =
    let (a, h1) = contains-cons type (codes "direct-tcp-v1") _ h in
    let (b, h2) = contains-cons type (codes "direct-udt-v1") _ h1 in
    let (c, h3) = contains-cons type (codes "relay-v1") _ h2 in rw (a, b, c) refl

hints-HasUnknown : (vs : Elements) → HasUnknown vs → read_elements hint_from_json vs ≡ none
hints-HasUnknown nil u = absurd u
hints-HasUnknown (cons v vs) (inl (type, es, e, t, o)) =
    let refused : hint_from_json v ≡ none =
      rw e (unfold hint_from_json in unfold read_object in rw t (hint_tagged-other type es o)) in
    rw refused refl
hints-HasUnknown (cons v vs) (inr u) =
    none->>= (hint_from_json v) (λ h. rw (hints-HasUnknown vs u) refl)

transit-HasUnknown :
    (es : Entries) (vs : Elements)
    → field (codes "hints-v1") es ≡ some (array vs)
    → HasUnknown vs
    → transit_from_json (object es) ≡ none
unfolding transit_from_json read_object
transit-HasUnknown es vs h u = none->>= (field (codes "abilities-v1") es) (λ a.
    none->>= (read_array ability_from_json a) (λ abilities. rw (h, hints-HasUnknown vs u) refl))

-- One hint of a type that this version does not know makes the whole message with the abilities and
-- the hints an error, wherever it stands among the hints and whatever else the message holds.
pub peer_from_json-HasUnknown :
    (es : Entries) (vs : Elements)
    → field (codes "hints-v1") es ≡ some (array vs)
    → HasUnknown vs
    → peer_from_json (object (entry (codes "transit") (object es) end)) ≡ none
unfolding peer_from_json only_entry peer_variant bytes_eq
peer_from_json-HasUnknown es vs h u = rw (transit-HasUnknown es vs h u) refl
