-- ===== src/Transit/Hints.antt =====
-- Abilities and hints of src/transit.rs. A hash set is a list with no
-- element twice.
use magic_wormhole_rs.Common.{
  ℕ, ◌≡◌, ◌↔◌, List, [], ◌∷◌, ◌++◌, Bool, true, false, Bytes, ◌==◌, ◌&&◌, ◌||◌, bytes_eq,
  bytes_eq_iff, if◌then◌else◌, arith,
}

pub data Ability : Type 0 where
  direct_tcp_v1 direct_udt_v1 relay_v1 other : Ability

unfoldable pub ability_eq : Ability → Ability → Bool
ability_eq direct_tcp_v1 direct_tcp_v1 = true
ability_eq direct_udt_v1 direct_udt_v1 = true
ability_eq relay_v1 relay_v1 = true
ability_eq other other = true
ability_eq _ _ = false

-- `Vec::contains` on abilities.
unfoldable pub has : Ability → List Ability → Bool
unfolding ability_eq
has a [] = false
has a (b ∷ bs) = ability_eq a b || has a bs

unfoldable pub all_abilities : List Ability
all_abilities = direct_tcp_v1 ∷ direct_udt_v1 ∷ relay_v1 ∷ []

unfoldable pub force_direct : List Ability
force_direct = direct_tcp_v1 ∷ direct_udt_v1 ∷ []

unfoldable pub force_relay : List Ability
force_relay = relay_v1 ∷ []

pub record DirectHint : Type 0 where
  pub hostname : Bytes
  pub port : ℕ

unfoldable pub hint_eq : DirectHint → DirectHint → Bool
hint_eq a b = bytes_eq a.hostname b.hostname && a.port == b.port

pub hint_eq_iff : (a b : DirectHint) → (hint_eq a b ≡ true) ↔ (a ≡ b)
unfolding hint_eq
hint_eq_iff a b = ground (arith, bytes_eq_iff a.hostname b.hostname)

unfoldable pub has_hint : DirectHint → List DirectHint → Bool
has_hint h [] = false
has_hint h (x ∷ xs) = hint_eq x h || has_hint h xs

-- `HashSet::insert`
unfoldable pub insert : DirectHint → List DirectHint → List DirectHint
insert h xs = if has_hint h xs then xs else xs ++ (h ∷ [])

-- `HashSet::extend`
unfoldable pub extend : List DirectHint → List DirectHint → List DirectHint
unfolding insert
extend xs [] = xs
extend xs (h ∷ hs) = extend (insert h xs) hs

pub record Hints : Type 0 where
  pub direct_tcp : List DirectHint
  pub relay : List DirectHint

abbrev pub no_hints : Hints
no_hints = record { direct_tcp = []; relay = [] }

pub data HostType : Type 0 where
  direct relay_host : HostType

pub record RelayUrl : Type 0 where
  pub host : Bytes
  pub port : ℕ

-- A network interface: its address as text, and whether it is the loopback.
pub record Interface : Type 0 where
  pub address : Bytes
  pub is_loopback : Bool

-- The hints of the network interfaces, for the two ports.
unfoldable pub local_hints : ℕ → ℕ → List Interface → List DirectHint
local_hints port port2 [] = []
local_hints port port2 (i ∷ is) =
    let rest = local_hints port port2 is in
    if i.is_loopback
    then rest
    else record { hostname = i.address; port = port }
      ∷ record { hostname = i.address; port = port2 }
      ∷ rest
