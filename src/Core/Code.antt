-- ===== src/Core/Code.antt =====
-- The wormhole code of src/core.rs, `15-foo-bar`: a nameplate, a dash, and the password.
use magic_wormhole_rs.Common.{
  ◌≡◌, refl, [], ◌∷◌, ◌++◌, Option, none, some, false, arith, Bytes, ◌==◌, sym, if◌then◌else◌,
  Outcome, ok, panic, ap, ◌⊎◌, inl, inr, Bool-cases, contains_byte,
}
use magic_wormhole_rs.Core.Names.{Nameplate}

abbrev pub Code : Type 0
Code = Bytes

-- `splitn(2, '-')`: the part up to the first dash, and what follows that dash if there is one.
unfoldable pub split_dash : Bytes → Bytes × Option Bytes
split_dash [] = ([], none)
split_dash (c ∷ cs) =
    let (front, back) = split_dash cs in if c == b'-' then ([], some cs) else (c ∷ front, back)

-- `Code::new`
unfoldable pub new : Nameplate → Bytes → Code
new nameplate password = nameplate ++ (b'-' ∷ password)

-- The second `unwrap` fails on a code with no dash.
unwrap_split : Bytes × Option Bytes → Outcome ⊥ (Nameplate × Bytes)
unwrap_split (nameplate, none) = panic
unwrap_split (nameplate, some password) = ok (nameplate, password)

-- `Code::split`
unfoldable pub split : Code → Outcome ⊥ (Nameplate × Bytes)
unfolding unwrap_split split_dash
split code = unwrap_split (split_dash code)

-- `Code::nameplate`
unfoldable pub nameplate : Code → Nameplate
unfolding split_dash
nameplate code = (split_dash code).0

split_dash-new : (n p : Bytes) → contains_byte b'-' n ≡ false → split_dash (new n p) ≡ (n, some p)
unfolding split_dash new contains_byte
split_dash-new [] p h = refl
split_dash-new (c ∷ n) p h = ground (arith, split_dash-new n p)

-- A code made from a nameplate with no dash in it gives back that nameplate and the whole password,
-- dashes in the password included.
pub split-new :
    (n p : Bytes)
    → contains_byte b'-' n ≡ false
    → (split (new n p) ≡ ok (n, p)) × (nameplate (new n p) ≡ n)
unfolding split nameplate
split-new n p h = (rw (split_dash-new n p h), ap (λ s. s.0) (split_dash-new n p h))

split_dash_shape :
    (code : Bytes)
    → ((contains_byte b'-' code ≡ false) × (split_dash code ≡ (code, none)))
      ⊎ ((n : Bytes) × (p : Bytes) × (split_dash code ≡ (n, some p))
          × (code ≡ n ++ (b'-' ∷ p))
          × (contains_byte b'-' n ≡ false))
unfolding split_dash contains_byte
split_dash_shape [] = inl (refl, refl)
split_dash_shape (c ∷ cs) = elim (Bool-cases (c == b'-')) [
  | inl dash ↦ inr ([], cs, rw dash, ground arith, refl)
  | inr other ↦ elim (split_dash_shape cs) [
    | inl (h, e) ↦ inl (rw (other, h), rw (other, e))
    | inr (n, p, e, s, h) ↦ inr (c ∷ n, p, rw (other, e), rw (← s), rw (other, h))
  ]
]

-- On any text `split` either gives the two parts around the first dash, from which `new` makes the
-- same code again, or it panics, and then the text holds no dash and is its own nameplate.
pub split_cases :
    (code : Code)
    → ((n : Nameplate) × (p : Bytes) × (split code ≡ ok (n, p))
        × (new n p ≡ code)
        × (contains_byte b'-' n ≡ false))
      ⊎ ((split code ≡ panic) × (contains_byte b'-' code ≡ false) × (nameplate code ≡ code))
unfolding split nameplate new
split_cases code = elim (split_dash_shape code) [
  | inl (h, e) ↦ inr (rw e, h, ap (λ s. s.0) e)
  | inr (n, p, e, s, h) ↦ inl (n, p, rw e, sym s, h)
]
