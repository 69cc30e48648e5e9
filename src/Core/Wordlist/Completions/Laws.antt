-- ===== src/Core/Wordlist/Completions/Laws.antt =====
-- What the completions of src/core/wordlist.rs are.
use mathlib.Core.List.{append_assoc, append-nil, map, Perm}
use magic_wormhole_rs.Common.{
  ℕ, ◌+◌, ◌-◌, ◌%◌, ◌≡◌, refl, List, [], ◌∷◌, ◌++◌, none, some, Bool, true, false, ◌&&◌, Bytes,
  length, length-append, take, take-append_length, get_elem?, ltb, ◌==◌, if◌then◌else◌, ◌⊎◌,
  bytes_eq, Bool-cases, Option-cases, inl, inr, arith, ap, sym, ◌∙◌,
}
use magic_wormhole_rs.Core.Wordlist.{Wordlist}
use magic_wormhole_rs.Core.Wordlist.Completions.{
  count_dashes, last_piece, starts_with, sort, complete, completions_of, get_completions,
}
use magic_wormhole_rs.Core.Wordlist.Completions.Sorted.{IsSorted, sort-IsSorted, sort-Perm}

-- A prefix is what stands up to its last dash, and the piece behind that.
pub record Splits (prefix front piece : Bytes) : Type 0 where
  pub joined : prefix ≡ front ++ piece
  pub no_dash : count_dashes piece ≡ 0
  pub at_dash : (front ≡ []) ⊎ ((stem : Bytes) × (front ≡ stem ++ (b'-' ∷ [])))

-- The words whose first bytes are a text.
unfoldable pub matching : Bytes → List Bytes → List Bytes
matching piece [] = []
matching piece (word ∷ words) =
    let rest = matching piece words in
    if bytes_eq (take (length piece) word) piece then word ∷ rest else rest

-- A word in place of the last piece, and a dash where another word follows.
pub completed : Bytes → Bool → Bytes → Bytes
completed front more word = front ++ (word ++ (if more then b'-' ∷ [] else []))

count_dashes-snoc :
    (piece : Bytes) (x : ℕ)
    → (x == b'-') ≡ false
    → count_dashes (piece ++ (x ∷ [])) ≡ count_dashes piece
unfolding count_dashes
count_dashes-snoc [] x h = rw h refl
count_dashes-snoc (y ∷ piece) x h = ground (arith, count_dashes-snoc piece x h)

-- The dash in front of what follows it.
later_dash :
    (piece front : Bytes)
    → (front ≡ []) ⊎ ((stem : Bytes) × (front ≡ stem ++ (b'-' ∷ [])))
    → (stem : Bytes) × (piece ++ (b'-' ∷ front) ≡ stem ++ (b'-' ∷ []))
later_dash piece front (inl empty) = (piece, ap (λ f. piece ++ (b'-' ∷ f)) empty)
later_dash piece front (inr (stem, e)) = (
  piece ++ (b'-' ∷ stem),
  ap (λ f. piece ++ (b'-' ∷ f)) e ∙ sym (append_assoc piece (b'-' ∷ stem) (b'-' ∷ [])),
)

last_piece-Splits :
    (piece xs : Bytes)
    → count_dashes piece ≡ 0
    → (front : Bytes) × Splits (piece ++ xs) front (last_piece piece xs)
unfolding last_piece count_dashes
last_piece-Splits piece [] n =
    ([], record { joined = append-nil piece; no_dash = n; at_dash = inl refl })
last_piece-Splits piece (x ∷ xs) n = elim (Bool-cases (x == b'-')) [
  | inl dash ↦
      let (front, s) = last_piece-Splits [] xs refl in
      let is_dash : x ≡ b'-' = ground (arith, dash) in
      (
        piece ++ (b'-' ∷ front),
        rw (dash, last_piece)
            (record {
              joined =
                  (λ j. piece ++ (is_dash j ∷ s.joined j))
                  ∙ sym (append_assoc piece (b'-' ∷ front) (last_piece [] xs));
              no_dash = s.no_dash;
              at_dash = inr (later_dash piece front s.at_dash);
            }),
      )
  | inr other ↦
      let (front, s) =
        last_piece-Splits (piece ++ (x ∷ [])) xs (count_dashes-snoc piece x other ∙ n) in
      (
        front,
        rw (other, last_piece)
            (record {
              joined = sym (append_assoc piece (x ∷ []) xs) ∙ s.joined;
              no_dash = s.no_dash;
              at_dash = s.at_dash;
            }),
      )
]

starts_with-take : (word p : Bytes) → starts_with word p ≡ bytes_eq (take (length p) word) p
unfolding starts_with bytes_eq
starts_with-take word [] = refl
starts_with-take [] (p ∷ ps) = refl
starts_with-take (x ∷ word) (p ∷ ps) = ap (λ b. x == p && b) (starts_with-take word ps)

-- What is left of the prefix in front of its last piece.
front_of :
    (front piece : Bytes) → take (length (front ++ piece) - length piece) (front ++ piece) ≡ front
front_of front piece =
    let n : length (front ++ piece) - length piece ≡ length front =
      omega (arith, length-append front piece) in
    rw n (take-append_length front piece)

no_bytes : (piece : Bytes) → (length piece == 0) ≡ true → piece ≡ []
no_bytes [] h = refl
no_bytes (x ∷ xs) h = ground (arith, h)

complete-completed :
    (prefix front piece : Bytes) (more : Bool) (word : Bytes)
    → prefix ≡ front ++ piece
    → complete prefix piece more word ≡ completed front more word
unfolding complete completed
complete-completed prefix front piece more word e =
    let tail : Bytes = if more then b'-' ∷ [] else [] in
    elim (Bool-cases (length piece == 0)) [
      | inl empty ↦
          let whole : prefix ≡ front =
            e ∙ ap (λ p. front ++ p) (no_bytes piece empty) ∙ append-nil front in
          rw (empty, whole) (append_assoc front word tail)
      | inr partial ↦ rw partial (
          (λ j. (take (length (e j) - length piece) (e j) ++ word) ++ tail)
          ∙ ap (λ f. (f ++ word) ++ tail) (front_of front piece)
          ∙ append_assoc front word tail)
    ]

completions_of-matching :
    (prefix front piece : Bytes) (more : Bool) (words : List Bytes)
    → prefix ≡ front ++ piece
    → completions_of prefix piece more words ≡ map (completed front more) (matching piece words)
unfolding completions_of matching
completions_of-matching prefix front piece more [] e = refl
completions_of-matching prefix front piece more (word ∷ words) e =
    let later = completions_of-matching prefix front piece more words e in
    let same = starts_with-take word piece in
    elim (Bool-cases (bytes_eq (take (length piece) word) piece)) [
      | inl fits ↦
          rw (same, fits, completions_of, matching)
            (λ j. complete-completed prefix front piece more word e j ∷ later j)
      | inr other ↦ rw (same, other, completions_of, matching) later
    ]

-- The completions of a prefix, sorted, are the words of the list for this place that begin with the
-- piece behind the prefix's last dash, each once, put in place of that piece, and with a dash behind
-- it where the list of words is to give more. There are no completions to give only if the list of
-- words has no list for this place.
pub get_completions_cases :
    (w : Wordlist) (prefix : Bytes)
    → ((get_elem? w.words (count_dashes prefix % length w.words) ≡ none)
        × (get_completions w prefix ≡ none))
      ⊎ ((words : List Bytes) × (cs : List Bytes) × (front : Bytes) × (piece : Bytes) × (get_elem?
              w.words
              (count_dashes prefix % length w.words)
            ≡ some words)
          × (get_completions w prefix ≡ some cs)
          × Splits prefix front piece
          × IsSorted cs
          × Perm cs (
              map
                (completed front (ltb (count_dashes prefix + 1) w.num_words))
                (matching piece words)))
unfolding get_completions
get_completions_cases w prefix =
    elim (Option-cases (get_elem? w.words (count_dashes prefix % length w.words))) [
      | inl none_there ↦ inl (none_there, rw (none_there, get_completions) refl)
      | inr (words, there) ↦
          let more : Bool = ltb (count_dashes prefix + 1) w.num_words in
          let piece : Bytes = last_piece [] prefix in
          let (front, s) = last_piece-Splits [] prefix refl in
          let found : List Bytes = completions_of prefix piece more words in
          let all : found ≡ map (completed front more) (matching piece words) =
            completions_of-matching prefix front piece more words s.joined in
          inr (
            words,
            sort found,
            front,
            piece,
            there,
            rw (there, get_completions) refl,
            s,
            sort-IsSorted found,
            rw (← all) (sort-Perm found),
          )
    ]
