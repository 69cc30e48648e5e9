-- ===== src/Transit/Choice.antt =====
-- Which connection `leader_connect` of src/transit.rs keeps.
use magic_wormhole_rs.Common.{
  ℕ, ◌+◌, ◌≤◌, ◌<◌, ◌≡◌, refl, List, [], ◌∷◌, none, some, true, All, Option-cases, inl, inr, arith,
  ◌⊎◌,
}
use magic_wormhole_rs.Transit.Hints.{Ability, direct_tcp_v1, has, direct, relay_host}
use magic_wormhole_rs.Transit.Record.{Transit}
use magic_wormhole_rs.Transit.Connect.{Ended, next_direct, to_wait, prefer}

-- The attempts end in the order of time, from `from` on.
unfoldable pub Ordered : ℕ → List Ended → Type 0
Ordered from [] = Unit
Ordered from (e ∷ es) = (from ≤ e.at) × Ordered e.at es

-- An attempt that gives a direct connection by `limit`.
pub IsDirectBy : ℕ → Ended → Type 0
IsDirectBy limit e = (e.at ≤ limit) × ((t : Transit) × (e.result ≡ some (t, direct)))

none_later :
    (limit from : ℕ) (es : List Ended)
    → limit < from
    → Ordered from es
    → All (λ e. ¬ IsDirectBy limit e) es
unfolding Ordered IsDirectBy
none_later limit from [] l o = tt
none_later limit from (e ∷ es) l o =
    (λ d. omega (arith, d.0, o.0, l), none_later limit e.at es (omega (arith, o.0, l)) o.1)

next_direct-none :
    (limit from : ℕ) (es : List Ended)
    → Ordered from es
    → next_direct limit es ≡ none
    → All (λ e. ¬ IsDirectBy limit e) es
unfolding next_direct Ordered IsDirectBy
next_direct-none limit from [] o h = tt
next_direct-none limit from (e ∷ es) o h =
    ground (arith, next_direct-none limit e.at es, none_later limit e.at es)

-- An attempt that gives this direct connection by `limit`.
pub Gives : ℕ → Transit → Ended → Type 0
Gives limit t e = (e.at ≤ limit) × (e.result ≡ some (t, direct))

-- Some attempt of the list is such.
pub Any : (Ended → Type 0) → List Ended → Type 0
Any P [] = ⊥
Any P (e ∷ es) = P e ⊎ Any P es

next_direct-some :
    (limit : ℕ) (t : Transit) (es : List Ended)
    → next_direct limit es ≡ some t
    → Any (Gives limit t) es
unfolding next_direct Gives Any
next_direct-some limit t [] h = cc
next_direct-some limit t (e ∷ es) h = ground (arith, next_direct-some limit t es)

module _ (our_abilities : List Ability) (t : Transit) (elapsed : ℕ) (later : List Ended) where
  -- A leader that may dial directly, and whose first connection, made at `elapsed`, goes over a
  -- relay, keeps that connection only if no attempt gives a direct one in the time that it waits
  -- for more; else it keeps a direct connection that one of these attempts gives.
  pub prefer-Direct :
      has direct_tcp_v1 our_abilities ≡ true
      → Ordered elapsed later
      → ((prefer our_abilities ((elapsed, t, relay_host), later) ≡ t)
          × All (λ e. ¬ IsDirectBy (elapsed + to_wait elapsed) e) later)
        ⊎ Any
            (Gives
              (elapsed + to_wait elapsed)
              (prefer our_abilities ((elapsed, t, relay_host), later)))
            later
  unfolding prefer
  prefer-Direct able o = elim (Option-cases (next_direct (elapsed + to_wait elapsed) later)) [
    | inl e ↦ inl (rw (able, e, prefer) refl, next_direct-none _ elapsed later o e)
    | inr (u, e) ↦
        inr (rw (able, e, prefer) (next_direct-some (elapsed + to_wait elapsed) u later e))
  ]
