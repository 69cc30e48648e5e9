-- ===== src/Cli/Terminal/Answers.antt =====
-- What the user has typed, from the answer that `ask_user` of src/bin/util.rs gives.
use mathlib.Core.List.{append_assoc}
use magic_wormhole_rs.Common.{
  ◌≡◌, refl, ◌⊎◌, inl, inr, List, [], ◌∷◌, ◌++◌, Option, none, some, Bool, true, false, ◌||◌, Bytes,
  ok, ap, sym, ◌∙◌, bytes_eq, bytes_eq_iff, Bool-cases, Option-cases, if◌then◌else◌,
}
use magic_wormhole_rs.Common.Text.{codes}
use magic_wormhole_rs.Cli.Terminal.{
  Terminal, to_lowercase, trim, decide, ask_loop, ask_user, prompt, complaint,
}

-- A line that is taken for yes.
pub Affirms : Bytes → Type 0
Affirms line = (trim (to_lowercase line) ≡ codes "y") ⊎ (trim (to_lowercase line) ≡ codes "yes")

either : (a b : Bytes) (x y : Bool) → bytes_eq a b ≡ x → (x || y) ≡ true → (a ≡ b) ⊎ (y ≡ true)
either a b true y e h = inl ((bytes_eq_iff a b).0 e)
either a b false y e h = inr h

not_yes : (a b : Bool) → (if a then some false else if b then some false else none) ≡ some true → ⊥
not_yes true b h = cc
not_yes false true h = cc
not_yes false false h = cc

decide-true : (line : Bytes) → decide false line ≡ some true → Affirms line
unfolding decide Affirms
decide-true line h =
    let answer = trim (to_lowercase line) in
    elim (Bool-cases (bytes_eq answer (codes "y") || bytes_eq answer (codes "yes"))) [
      | inl said_yes ↦
          elim (either answer (codes "y") (bytes_eq answer (codes "y"))
            (bytes_eq answer (codes "yes")) refl said_yes) [
              | inl y ↦ inl y
              | inr yes_ ↦ inr ((bytes_eq_iff answer (codes "yes")).0 yes_)
            ]
      | inr other ↦ absurd (
          not_yes (bytes_eq answer (codes "n") || bytes_eq answer (codes "no")) (bytes_eq answer [])
            (rw other at h))
    ]

-- A line of the input is an answer that is taken for yes.
pub Typed : List (Option Bytes) → Type 0
Typed input =
    (before : List (Option Bytes)) × ((line : Bytes) × ((rest : List (Option Bytes)) × ((input
            ≡ before ++ (some line ∷ rest))
          × Affirms line)))

pub Typed-more :
    (taken rest input : List (Option Bytes)) → input ≡ taken ++ rest → Typed rest → Typed input
unfolding Typed
Typed-more taken rest input h (before, (line, (after_it, (s, a)))) = (
  taken ++ before,
  (
    line,
    (
      after_it,
      (h ∙ ap (λ l. taken ++ l) s ∙ sym (append_assoc taken before (some line ∷ after_it)), a),
    ),
  ),
)

module _ (E : Type 0) (message : Bytes) where
  -- The input that a question leaves is the end of the input before it.
  ask_loop-rest :
      (def : Bool) (input : List (Option Bytes)) (printed : List Bytes)
      → (taken : List (Option Bytes)) × (input
          ≡ taken ++ (ask_loop message def {E = E} input printed).1.input)
  unfolding ask_loop
  ask_loop-rest def [] printed = ([], refl)
  ask_loop-rest def (none ∷ input) printed = (none ∷ [], refl)
  ask_loop-rest def (some line ∷ input) printed =
      let asked = printed ++ (prompt message def ∷ []) in
      let (taken, h) = ask_loop-rest def input (asked ++ (complaint ∷ [])) in
      elim (Option-cases (decide def line)) [
        | inl again ↦ (some line ∷ taken, rw (again, ask_loop) (ap (◌∷◌ (some line)) h))
        | inr (answer, given) ↦ (some line ∷ [], rw (given, ask_loop) refl)
      ]

  ask_loop-true :
      (input : List (Option Bytes)) (printed : List Bytes)
      → (ask_loop message false {E = E} input printed).0 ≡ ok true
      → Typed input
  unfolding ask_loop Typed
  ask_loop-true [] printed h = cc
  ask_loop-true (none ∷ input) printed h = cc
  ask_loop-true (some line ∷ input) printed h =
      let asked = printed ++ (prompt message false ∷ []) in
      elim (Option-cases (decide false line)) [
        | inl again ↦
            Typed-more (some line ∷ []) input (some line ∷ input) refl
              (ask_loop-true input (asked ++ (complaint ∷ [])) (rw (again, ask_loop) at h))
        | inr (answer, given) ↦
            let g : ok answer ≡ ok true = rw (given, ask_loop) at h in
            let yes_please : answer ≡ true = cc g in
            ([], (line, (input, (refl, decide-true line (given ∙ ap some yes_please)))))
      ]

  pub ask_user-rest :
      (def : Bool) (t : Terminal)
      → (taken : List (Option Bytes)) × (t.input
          ≡ taken ++ (ask_user message def {E = E} t).1.input)
  unfolding ask_user
  ask_user-rest def t = ask_loop-rest def t.input t.printed

  -- Where no is the default, the answer is yes only if the user has typed it.
  pub ask_user-Typed :
      (t : Terminal) → (ask_user message false {E = E} t).0 ≡ ok true → Typed t.input
  unfolding ask_user
  ask_user-Typed t h = ask_loop-true t.input t.printed h
