-- ===== src/Examples/Utilities.antt =====
-- Counters, stamps, codes and keys on concrete input.
use mathlib.Core.List.{reverse, map, Perm}
use magic_wormhole_rs.Common.{
  ℕ, zero, suc, ◌+◌, ◌%◌, ◌<◌, ◌≡◌, ◌≢◌, ◌⊎◌, refl, [], ◌∷◌, ◌++◌, none, some, Bytes, replicate,
  arith, length, ◌==◌, if◌then◌else◌,
}
use magic_wormhole_rs.Common.Text.{codes}
use magic_wormhole_rs.Common.Decimal.{to_string}
use magic_wormhole_rs.Util.Counter.{
  sodium_increment_be, increments, increments-distinct, increment_loop,
}
use magic_wormhole_rs.Util.Hashcash.{Mint, hashcash}
use magic_wormhole_rs.Util.Hashcash.Least.{ZeroBits, Suffices, token, hashcash-first}
use magic_wormhole_rs.Core.Key.{encrypt_data}
use magic_wormhole_rs.Common.{List}
use magic_wormhole_rs.Core.Wordlist.Completions.{count_dashes, get_completions}
use magic_wormhole_rs.Core.Wordlist.Completions.Laws.{
  Splits, completed, matching, get_completions_cases,
}
use magic_wormhole_rs.Core.Wordlist.Completions.Sorted.{IsSorted}
use magic_wormhole_rs.Common.{inl, inr, get_elem?, ltb, ◌%◌, ◌⊎◌, none, length}
use magic_wormhole_rs.Core.Wordlist.{
  Wordlist, choose_words, default_wordlist, join, Alternate, choose_words-Alternate,
}
use magic_wormhole_rs.Examples.Crates.{toy}

abbrev counter : Bytes
counter = 0 ∷ 255 ∷ []

increments-distinct_example : increments 3 counter ≢ increments 300 counter
increments-distinct_example =
    increments-distinct counter 3 300 (omega arith, (omega arith, tt)) (omega arith) (omega arith)

digest : Bytes → Bytes
digest [] = []
digest (x ∷ xs) = (if x == 3 then 0 else 255) ∷ []

-- The hash of a stamp has leading zero bits only if its last byte is three.
abbrev mint : Mint
mint = record {
  base64 = λ b. b;
  sha1 = λ b. digest (reverse b);
  today = codes "220401";
  random = replicate 16 9;
}

abbrev Small : ℕ → Type 0
Small k = Suffices mint [] 5 k

too_few : (j : ℕ) → j < 2 → ¬ Small (suc j)
unfolding increments increment_loop sodium_increment_be digest ZeroBits to_string
too_few zero h z = elim z [
  | inl e ↦ cc
  | inr (inl (l, b)) ↦ omega (arith, b)
  | inr (inr (l, e, n)) ↦ cc
]
too_few (suc zero) h z = elim z [
  | inl e ↦ cc
  | inr (inl (l, b)) ↦ omega (arith, b)
  | inr (inr (l, e, n)) ↦ cc
]
too_few (suc (suc j)) h z = absurd (omega (arith, h))

third : Small 3
unfolding increments increment_loop sodium_increment_be digest ZeroBits to_string
third = inr (inl (omega arith, omega arith))

hashcash-first_example :
    hashcash mint [] 5 100 ≡ some (token mint [] 5 (increments 3 (replicate 8 0)))
hashcash-first_example = hashcash-first mint [] 5 2 100 (omega arith) too_few third

one_byte :
    encrypt_data toy (replicate 24 1) (5 ∷ []) (8 ∷ [])
    ≡ some (replicate 24 1 ++ (replicate 16 0 ++ (8 ∷ [])))
unfolding encrypt_data
one_byte = refl

abbrev even_words : List Bytes
even_words = codes "adroitness" ∷ codes "article" ∷ []

abbrev odd_words : List Bytes
odd_words = codes "aardvark" ∷ []

choose_words-Alternate_example :
    (ys : List Bytes) × (choose_words (λ i. i + 1) (default_wordlist even_words odd_words 3)
      ≡ some (join ys))
    × (length ys ≡ 3)
    × Alternate even_words odd_words ys
choose_words-Alternate_example =
    choose_words-Alternate even_words odd_words 3 (λ i. i + 1) (omega arith) (omega arith)

abbrev three_words : Wordlist
three_words = record {
  num_words = 2;
  words = (codes "adroitness" ∷ codes "aardvark" ∷ codes "bison" ∷ []) ∷ (codes "zebra" ∷ []) ∷ [];
}

-- `a` goes on to two words, in order.
completes :
    get_completions three_words (codes "a") ≡ some (codes "aardvark-" ∷ codes "adroitness-" ∷ [])
unfolding get_completions
completes = refl

get_completions_cases_example :
    ((get_elem? three_words.words (count_dashes (codes "a-z") % 2) ≡ none)
      × (get_completions three_words (codes "a-z") ≡ none))
    ⊎ ((words : List Bytes) × (cs : List Bytes) × (front : Bytes) × (piece : Bytes) × (get_elem?
            three_words.words
            (count_dashes (codes "a-z") % 2)
          ≡ some words)
        × (get_completions three_words (codes "a-z") ≡ some cs)
        × Splits (codes "a-z") front piece
        × IsSorted cs
        × Perm cs
            (map (completed front (ltb (count_dashes (codes "a-z") + 1) 2)) (matching piece words)))
get_completions_cases_example = get_completions_cases three_words (codes "a-z")
