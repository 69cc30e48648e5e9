-- ===== src/Core/Names.antt =====
-- The small types of src/core.rs: moods, application identifiers and configuration, sides, phases,
-- mailboxes and nameplates. A newtype over a string is the string's bytes.
use magic_wormhole_rs.Common.{ℕ, ◌<◌, ◌^◌, ◌≡◌, Option, some, Bool, false, arith, Bytes, bytes_eq}
use magic_wormhole_rs.Common.Decimal.{to_string, parse, parse-to_string, to_string-head}
use magic_wormhole_rs.Common.Text.{codes}

pub data Mood : Type 0 where
  happy lonely errory scared unwelcome : Mood

-- What serde writes for a mood on the wire.
unfoldable pub Mood_name : Mood → Bytes
Mood_name happy = codes "happy"
Mood_name lonely = codes "lonely"
Mood_name errory = codes "errory"
Mood_name scared = codes "scary"
Mood_name unwelcome = codes "unwelcome"

abbrev pub AppId : Type 0
AppId = Bytes

abbrev pub Mailbox : Type 0
Mailbox = Bytes

abbrev pub Nameplate : Type 0
Nameplate = Bytes

abbrev pub EitherSide : Type 0
EitherSide = Bytes

abbrev pub MySide : Type 0
MySide = EitherSide

abbrev pub TheirSide : Type 0
TheirSide = EitherSide

abbrev pub Phase : Type 0
Phase = Bytes

-- `MySide::generate`, from the five random bytes drawn and the hex encoder.
unfoldable pub generate : (Bytes → Bytes) → Bytes → MySide
generate hex_encode bytes = hex_encode bytes

pub record AppConfig {ℓ} (V : Type ℓ) : Type ℓ where
  pub id : AppId
  pub rendezvous_url : Bytes
  pub app_version : V

abbrev pub version : Phase
version = codes "version"

abbrev pub pake : Phase
pake = codes "pake"

-- `Phase::numeric`; the phase is a u64.
unfoldable pub numeric : ℕ → Phase
numeric phase = to_string phase

unfoldable pub is_version : Phase → Bool
unfolding bytes_eq
is_version p = bytes_eq p version

unfoldable pub is_pake : Phase → Bool
unfolding bytes_eq
is_pake p = bytes_eq p pake

unfoldable pub to_num : Phase → Option ℕ
to_num p = parse (2 ^ 64) p

-- Every u64 phase number is read back from its phase, and no numeric phase is taken for the
-- handshake phases `version` and `pake`.
pub to_num-numeric :
    (n : ℕ)
    → n < 2 ^ 64
    → (to_num (numeric n) ≡ some n)
      × (is_version (numeric n) ≡ false)
      × (is_pake (numeric n) ≡ false)
unfolding to_num numeric is_version is_pake
to_num-numeric n h =
    let (c, cs, e, lo, hi) = to_string-head n in
    (parse-to_string (2 ^ 64) n h, rw e (ground arith), rw e (ground arith))
