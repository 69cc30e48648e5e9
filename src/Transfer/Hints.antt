-- ===== src/Transfer/Hints.antt =====
-- Hints survive the trip of src/transfer/messages.rs into a message and back.
use mathlib.Core.List.{map, append_assoc, append-nil}
use magic_wormhole_rs.Common.{
  ◌≡◌, refl, ◌⊎◌, inl, inr, List, [], ◌∷◌, ◌++◌, none, some, false, ◌∙◌, sym,
}
use magic_wormhole_rs.Transit.Hints.{DirectHint, Hints, insert, extend, has_hint}
use magic_wormhole_rs.Transfer.Messages.{
  Hint, direct_tcp_v1, direct_udt_v1, relay_v1, new_relay, from_hints, collect_hints, into_hints,
}

-- No hint stands in a list twice, nor in `seen`: what a `HashSet` keeps.
unfoldable pub Distinct : List DirectHint → List DirectHint → Type 0
unfolding has_hint
Distinct seen [] = Unit
Distinct seen (h ∷ hs) = (has_hint h seen ≡ false) × Distinct (seen ++ (h ∷ [])) hs

extend-Distinct : (seen hs : List DirectHint) → Distinct seen hs → extend seen hs ≡ seen ++ hs
unfolding extend insert Distinct
extend-Distinct seen [] d = sym (append-nil seen)
extend-Distinct seen (h ∷ hs) d =
    rw d.0 (extend-Distinct (seen ++ (h ∷ [])) hs d.1 ∙ append_assoc seen (h ∷ []) hs)

collect_direct :
    (hs : List DirectHint) (more : List Hint) (hints : Hints)
    → Distinct hints.direct_tcp hs
    → collect_hints hints (map direct_tcp_v1 hs ++ more)
      ≡ collect_hints (record hints { direct_tcp = hints.direct_tcp ++ hs }) more
unfolding collect_hints insert Distinct
collect_direct [] more hints d =
    λ j. collect_hints (record hints { direct_tcp = sym (append-nil hints.direct_tcp) j }) more
collect_direct (h ∷ hs) more hints d =
    rw (d.0, collect_hints)
      (collect_direct hs more (record hints { direct_tcp = hints.direct_tcp ++ (h ∷ []) }) d.1
        ∙ λ j.
            collect_hints
              (record hints { direct_tcp = append_assoc hints.direct_tcp (h ∷ []) hs j }) more)

-- Hints that hold nothing twice, put into a message and taken out again, are the same hints.
pub into_hints-from_hints :
    (hints : Hints)
    → Distinct [] hints.direct_tcp
    → Distinct [] hints.relay
    → into_hints (from_hints hints) ≡ some hints
unfolding into_hints from_hints collect_hints
into_hints-from_hints hints d r =
    collect_direct hints.direct_tcp (new_relay hints.relay ∷ [])
      (record { direct_tcp = []; relay = [] }) d
    ∙ λ j.
        some (record { direct_tcp = hints.direct_tcp; relay = extend-Distinct [] hints.relay r j })

-- A hint of the kind that the code does not implement stands among the hints.
pub HasUdt : List Hint → Type 0
HasUdt [] = ⊥
HasUdt (direct_udt_v1 h ∷ hints) = Unit
HasUdt (direct_tcp_v1 h ∷ hints) = HasUdt hints
HasUdt (relay_v1 r ∷ hints) = HasUdt hints

collect_hints_cases :
    (seen : Hints) (hints : List Hint)
    → (HasUdt hints × (collect_hints seen hints ≡ none))
      ⊎ ((¬ HasUdt hints) × ((found : Hints) × (collect_hints seen hints ≡ some found)))
unfolding collect_hints HasUdt
collect_hints_cases seen [] = inr (λ h. h, (seen, refl))
collect_hints_cases seen (direct_tcp_v1 h ∷ hints) =
    collect_hints_cases (record seen { direct_tcp = insert h seen.direct_tcp }) hints
collect_hints_cases seen (direct_udt_v1 h ∷ hints) = inl (tt, refl)
collect_hints_cases seen (relay_v1 r ∷ hints) =
    collect_hints_cases (record seen { relay = extend seen.relay r.hints }) hints

-- The hints of a peer are taken over, whatever else they are, unless a `direct-udt-v1` hint is among
-- them; then, and only then, the conversion panics.
pub into_hints_cases :
    (hints : List Hint)
    → (HasUdt hints × (into_hints hints ≡ none))
      ⊎ ((¬ HasUdt hints) × ((found : Hints) × (into_hints hints ≡ some found)))
unfolding into_hints
into_hints_cases hints = collect_hints_cases (record { direct_tcp = []; relay = [] }) hints
