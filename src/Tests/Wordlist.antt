-- ===== src/Tests/Wordlist.antt =====
-- The tests of src/core/wordlist.rs on small lists.
use magic_wormhole_rs.Common.{
  ℕ, ◌%◌, ◌≡◌, refl, ◌⊎◌, inl, inr, List, [], ◌∷◌, Option, none, some, Bool, true, false, ◌&&◌,
  Bytes, contains, bytes_eq, arith,
}
use magic_wormhole_rs.Common.Text.{codes}
use magic_wormhole_rs.Core.Wordlist.{Wordlist, choose_words, choose_all}
use magic_wormhole_rs.Core.Wordlist.Completions.{get_completions}

abbrev colours : Wordlist
colours = record {
  num_words = 2;
  words =
      (codes "purple" ∷ codes "green" ∷ codes "yellow" ∷ [])
      ∷ (codes "sausages" ∷ codes "seltzer" ∷ codes "snobol" ∷ [])
      ∷ [];
}

-- What the test asks for, in its order.
abbrev test_completion : List (Option (List Bytes))
test_completion =
    get_completions colours []
    ∷ get_completions colours (codes "pur")
    ∷ get_completions colours (codes "blu")
    ∷ get_completions colours (codes "purple-sa")
    ∷ []

test_completion_passes :
    test_completion
    ≡ some (codes "green-" ∷ codes "purple-" ∷ codes "yellow-" ∷ [])
      ∷ some (codes "purple-" ∷ [])
      ∷ some []
      ∷ some (codes "purple-sausages" ∷ [])
      ∷ []
unfolding get_completions
test_completion_passes = refl

abbrev few_words : List (List Bytes)
few_words = (codes "purple" ∷ []) ∷ (codes "sausages" ∷ []) ∷ []

abbrev more_words : List (List Bytes)
more_words = (codes "purple" ∷ codes "yellow" ∷ []) ∷ (codes "sausages" ∷ []) ∷ []

abbrev drawn_from : List (List Bytes) → ℕ → (ℕ → ℕ) → Option Bytes
drawn_from words n draw = choose_words draw (record { num_words = n; words = words })

abbrev test_choose_words : (ℕ → ℕ) → List (Option Bytes)
test_choose_words draw =
    drawn_from few_words 2 draw ∷ drawn_from few_words 3 draw ∷ drawn_from few_words 4 draw ∷ []

test_choose_words_passes :
    test_choose_words (λ i. 0)
    ≡ some (codes "purple-sausages")
      ∷ some (codes "purple-sausages-purple")
      ∷ some (codes "purple-sausages-purple-sausages")
      ∷ []
unfolding choose_words
test_choose_words_passes = refl

abbrev expected2 : List Bytes
expected2 = codes "purple-sausages" ∷ codes "yellow-sausages" ∷ []

abbrev expected3 : List Bytes
expected3 =
    codes "purple-sausages-purple"
    ∷ codes "yellow-sausages-purple"
    ∷ codes "purple-sausages-yellow"
    ∷ codes "yellow-sausages-yellow"
    ∷ []

abbrev is_among : Option Bytes → List Bytes → Bool
is_among none expected = false
is_among (some words) expected = contains words expected

abbrev test_choose_more_words : (ℕ → ℕ) → Bool
test_choose_more_words draw =
    is_among (drawn_from more_words 2 draw) expected2
    && is_among (drawn_from more_words 3 draw) expected3

halves : (n : ℕ) → (n % 2 ≡ 0) ⊎ (n % 2 ≡ 1)
halves n = ground arith

-- Whatever numbers are drawn, and not only in twenty runs.
test_choose_more_words_passes : (draw : ℕ → ℕ) → test_choose_more_words draw ≡ true
unfolding choose_words choose_all contains bytes_eq
test_choose_more_words_passes draw =
    let second : draw 1 % 1 ≡ 0 = omega arith in
    elim (halves (draw 0)) [
      | inl a ↦ elim (halves (draw 2)) [
        | inl b ↦ rw (a, second, b) refl
        | inr b ↦ rw (a, second, b) refl
      ]
      | inr a ↦ elim (halves (draw 2)) [
        | inl b ↦ rw (a, second, b) refl
        | inr b ↦ rw (a, second, b) refl
      ]
    ]
