-- ===== src/Core/Messages/Lenient.antt =====
-- Which fields of a message the client insists on.
use magic_wormhole_rs.Common.{◌≡◌, refl, Option, none, some, Bytes, bytes_eq, Bool-cases, inl, inr}
use magic_wormhole_rs.Common.Text.{codes}
use magic_wormhole_rs.Core.Json.{
  Json, object, string, Entries, end, entry, has_key, field, repeats, optional_field, ◌>>=◌,
  read_string, read_object, read_option,
}
use magic_wormhole_rs.Core.Json.Laws.{none->>=}
use magic_wormhole_rs.Core.Messages.Decoding.{
  string_field, read_variant, read_tagged, inbound_from_json, read_orig, read_permission,
  read_welcome,
}

module _ (hex_decode : Bytes → Option Bytes) where
  -- The message under `orig` is what is read of that field.
  pub read_orig-field :
      (es : Entries)
      → read_orig hex_decode es ≡ (field (codes "orig") es >>= inbound_from_json hex_decode)
  unfolding field read_orig
  read_orig-field end = refl
  read_orig-field (entry k v es) = elim (Bool-cases (bytes_eq k (codes "orig"))) [
    | inl here ↦ elim (Bool-cases (has_key (codes "orig") es)) [
      | inl again ↦ rw (here, again) refl
      | inr once ↦ rw (here, once) refl
    ]
    | inr later ↦ rw later (read_orig-field es)
  ]

read_permission-insists :
    (p : Entries) → field (codes "none") p ≡ none → read_permission (object p) ≡ none
unfolding read_permission read_object
read_permission-insists p n = rw n refl

optional_field-refused :
    {A : Type 0} (read : Json → Option A) (key : Bytes) (es p : Entries)
    → field key es ≡ some (object p)
    → read (object p) ≡ none
    → (optional_field key es >>= read_option read) ≡ none
unfolding optional_field
optional_field-refused read key es p h r = elim (Bool-cases (repeats key es)) [
  | inl again ↦ rw again refl
  | inr once ↦ rw (once, h, r) refl
]

read_welcome-insists :
    (w p : Entries)
    → field (codes "permission-required") w ≡ some (object p)
    → field (codes "none") p ≡ none
    → read_welcome (object w) ≡ none
unfolding read_welcome read_object
read_welcome-insists w p r n =
    let refused : (optional_field (codes "permission-required") w >>= read_option read_permission)
        ≡ none =
      optional_field-refused read_permission (codes "permission-required") w p r
        (read_permission-insists p n) in
    none->>= (optional_field (codes "current_cli_version") w >>= read_option read_string) (λ cli.
      none->>= (optional_field (codes "motd") w >>= read_option read_string) (λ m.
        none->>= (optional_field (codes "error") w >>= read_option read_string)
          (λ e. rw refused refl)))

-- A welcome that asks for a permission, and whose `permission-required` has no field `none`, is an
-- error, whatever other methods it offers.
pub inbound_from_json-insists :
    (hex_decode : Bytes → Option Bytes) (es w p : Entries)
    → field (codes "type") es ≡ some (string (codes "welcome"))
    → field (codes "welcome") es ≡ some (object w)
    → field (codes "permission-required") w ≡ some (object p)
    → field (codes "none") p ≡ none
    → inbound_from_json hex_decode (object es) ≡ none
unfolding inbound_from_json read_tagged read_variant string_field read_string bytes_eq
inbound_from_json-insists hex_decode es w p t h r n = rw (t, h, read_welcome-insists w p r n) refl
