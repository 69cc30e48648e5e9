-- ===== src/Core/Wordlist/Completions.antt =====
-- `Wordlist::get_completions` of src/core/wordlist.rs.
pub mod Sorted
pub mod Laws
use magic_wormhole_rs.Common.{
  ℕ, zero, suc, ◌+◌, ◌-◌, ◌%◌, List, [], ◌∷◌, ◌++◌, Option, none, some, Bool, true, false, ◌&&◌,
  Bytes, length, take, get_elem?, ltb, ◌==◌, if◌then◌else◌,
}
use magic_wormhole_rs.Core.Wordlist.{Wordlist}

-- `prefix.matches('-').count()`
unfoldable pub count_dashes : Bytes → ℕ
count_dashes [] = 0
count_dashes (x ∷ xs) = let rest = count_dashes xs in if x == b'-' then suc rest else rest

-- `split('-').last()`, `piece` being what is read of the present piece.
unfoldable pub last_piece : Bytes → Bytes → Bytes
last_piece piece [] = piece
last_piece piece (x ∷ xs) =
    let fresh = last_piece [] xs in
    let longer = last_piece (piece ++ (x ∷ [])) xs in if x == b'-' then fresh else longer

unfoldable pub starts_with : Bytes → Bytes → Bool
starts_with word [] = true
starts_with [] (p ∷ ps) = false
starts_with (x ∷ word) (p ∷ ps) = x == p && starts_with word ps

-- The order of `String`, byte by byte.
unfoldable pub bytes_leb : Bytes → Bytes → Bool
bytes_leb [] b = true
bytes_leb (x ∷ a) [] = false
bytes_leb (x ∷ a) (y ∷ b) =
    let rest = bytes_leb a b in if ltb x y then true else if ltb y x then false else rest

unfoldable pub insert_sorted : Bytes → List Bytes → List Bytes
unfolding bytes_leb
insert_sorted x [] = x ∷ []
insert_sorted x (y ∷ ys) =
    let later = insert_sorted x ys in if bytes_leb x y then x ∷ y ∷ ys else y ∷ later

-- `completions.sort()`
unfoldable pub sort : List Bytes → List Bytes
unfolding insert_sorted
sort [] = []
sort (x ∷ xs) = insert_sorted x (sort xs)

-- One completion; `more` tells whether another word follows.
unfoldable pub complete : Bytes → Bytes → Bool → Bytes → Bytes
complete prefix partial more word =
    (if length partial == 0
      then prefix ++ word
      else take (length prefix - length partial) prefix ++ word)
    ++ (if more then b'-' ∷ [] else [])

-- The loop over the words, less the sorting.
unfoldable pub completions_of : Bytes → Bytes → Bool → List Bytes → List Bytes
unfolding starts_with complete
completions_of prefix partial more [] = []
completions_of prefix partial more (word ∷ words) =
    let rest = completions_of prefix partial more words in
    if starts_with word partial then complete prefix partial more word ∷ rest else rest

-- `get_completions`; `none` is the panic on a list with no words at all.
unfoldable pub get_completions : Wordlist → Bytes → Option (List Bytes)
unfolding count_dashes last_piece completions_of sort
get_completions w prefix = elim (get_elem? w.words (count_dashes prefix % length w.words)) [
  | none ↦ none
  | some words ↦ some (
      sort (
        completions_of prefix (last_piece [] prefix) (ltb (count_dashes prefix + 1) w.num_words)
          words))
]
