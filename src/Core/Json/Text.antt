-- ===== src/Core/Json/Text.antt =====
-- `serde_json::to_vec` and `serde_json::from_slice`, which turn a value into text and back.
use magic_wormhole_rs.Common.{ℕ, ◌≡◌, refl, Option, some, true, Bytes}
use magic_wormhole_rs.Core.Crypto.{Codec}
use magic_wormhole_rs.Core.Json.{Json, ◌>>=◌, fits}

pub record JsonText : Type 0 where
  pub print : Json → Bytes
  -- An error is `none`.
  pub parse : Bytes → Option Json

-- How deep values may stand inside each other for the parser of serde_json.
abbrev pub recursion_limit : ℕ
recursion_limit = 127

-- serde_json reads back what it writes, within its limits.
unfoldable pub IsFaithful : JsonText → Type 0
IsFaithful text = (v : Json) → fits recursion_limit v ≡ true → text.parse (text.print v) ≡ some v

-- What serde_json does for one type, from what the type's attributes derive.
unfoldable pub codec {ℓ} : {A : Type ℓ} → JsonText → (A → Json) → (Json → Option A) → Codec A
codec text write read = record {
  to_vec = λ a. text.print (write a);
  from_slice = λ b. text.parse b >>= read;
}

-- If serde_json reads back what it writes, and the derived reader what the derived writer makes, then
-- the message is read back from its text.
pub codec-back {ℓ} :
    {A : Type ℓ} (text : JsonText) (write : A → Json) (read : Json → Option A) (a : A)
    → IsFaithful text
    → fits recursion_limit (write a) ≡ true
    → read (write a) ≡ some a
    → (codec text write read).from_slice ((codec text write read).to_vec a) ≡ some a
unfolding codec IsFaithful
codec-back text write read a faithful f back = rw (faithful (write a) f, back) refl
