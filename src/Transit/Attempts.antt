-- ===== src/Transit/Attempts.antt =====
-- The connection attempts that `TransitConnector::connect` of src/transit.rs makes.
use magic_wormhole_rs.Common.{
  ◌≡◌, ◌⊎◌, inl, inr, List, [], ◌∷◌, ◌++◌, Bool, true, ◌&&◌, All, All-append, Bool-cases,
}
use magic_wormhole_rs.Transit.Hints.{
  Ability, direct_tcp_v1, relay_v1, has, DirectHint, has_hint, insert, extend, Hints,
}
use magic_wormhole_rs.Transit.Connect.{Attempt, dial, dial_relay, listen, dials, relays, listens}

-- What an attempt must be, by the abilities and hints of both sides.
pub Allowed : List Ability → Hints → List Ability → Hints → Attempt → Type 0
Allowed ours our_hints theirs their_hints (dial h) =
    (has direct_tcp_v1 ours ≡ true) × (has_hint h their_hints.direct_tcp ≡ true)
Allowed ours our_hints theirs their_hints (dial_relay h) =
    (has relay_v1 ours ≡ true)
    × (has relay_v1 theirs ≡ true)
    × ((has_hint h our_hints.relay ≡ true) ⊎ (has_hint h their_hints.relay ≡ true))
Allowed ours our_hints theirs their_hints listen = has direct_tcp_v1 ours ≡ true

module _ {A : Type 0} where
  pub All-imply : {P Q : A → Type 0} → ((a : A) → P a → Q a) → (xs : List A) → All P xs → All Q xs
  All-imply f [] p = p
  All-imply f (x ∷ xs) p = (f x p.0, All-imply f xs p.1)

pub insert-All :
    (P : DirectHint → Type 0) (h : DirectHint) (xs : List DirectHint)
    → P h
    → All P xs
    → All P (insert h xs)
unfolding insert
insert-All P h xs p a = elim (Bool-cases (has_hint h xs)) [
  | inl there ↦ rw there a
  | inr gone ↦ rw gone (All-append P xs (h ∷ []) a (p, tt))
]

pub extend-All :
    (P : DirectHint → Type 0) (xs hs : List DirectHint) → All P xs → All P hs → All P (extend xs hs)
unfolding extend
extend-All P xs [] a b = a
extend-All P xs (h ∷ hs) a b = extend-All P (insert h xs) hs (insert-All P h xs b.0 a) b.1

module _ (ours : List Ability) (our_hints : Hints) (theirs : List Ability)
    (their_hints : Hints) where
  abbrev Fine : List Attempt → Type 0
  Fine = All (Allowed ours our_hints theirs their_hints)

  attempts_of : Bool → List Attempt
  attempts_of own =
      dials own their_hints
      ++ (relays (has relay_v1 ours && has relay_v1 theirs) our_hints their_hints ++ listens own)
