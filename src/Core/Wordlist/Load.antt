-- ===== src/Core/Wordlist/Load.antt =====
-- `load_pgpwords` of src/core/wordlist.rs, on the JSON tree of the file with the words.
use magic_wormhole_rs.Common.{
  ℕ, zero, suc, ◌+◌, ◌-◌, ◌*◌, ◌<◌, ◌≡◌, refl, ap, ◌∙◌, List, [], ◌∷◌, Option, none, some, ◌&&◌,
  Bytes, ltb, ltb→lt, leb, ◌==◌, if◌then◌else◌, length, replicate, length-replicate, get_or, map,
  arith, Bool-cases, Option-cases, inl, inr,
}
use magic_wormhole_rs.Core.Json.{
  Json, array, object, Elements, nil, cons, Entries, end, entry, ◌>>=◌, read_object, read_string,
}

-- The digits of radix 16.
unfoldable pub hex_digit : ℕ → Option ℕ
hex_digit c =
    if leb 48 c && ltb c 58
    then some (c - 48)
    else if leb 65 c && ltb c 71
    then some (c - 55)
    else if leb 97 c && ltb c 103
    then some (c - 87)
    else none

unfoldable pub hex_digits : ℕ → Bytes → Option ℕ
unfolding hex_digit
hex_digits acc [] = some acc
hex_digits acc (c ∷ cs) =
    hex_digit c >>= λ d. if ltb (acc * 16 + d) 256 then hex_digits (acc * 16 + d) cs else none

some_digits : Bytes → Option ℕ
unfolding hex_digits
some_digits [] = none
some_digits (c ∷ cs) = hex_digits 0 (c ∷ cs)

-- `u8::from_str_radix(index_str, 16)`
unfoldable pub from_str_radix : Bytes → Option ℕ
unfolding some_digits
from_str_radix [] = none
from_str_radix (c ∷ cs) = if c == b'+' then some_digits cs else some_digits (c ∷ cs)

-- `Value::get` of an index.
unfoldable pub nth_element : ℕ → Elements → Option Json
nth_element i nil = none
nth_element zero (cons v vs) = some v
nth_element (suc i) (cons v vs) = nth_element i vs

unfoldable pub element : ℕ → Json → Option Json
unfolding nth_element
element i (array vs) = nth_element i vs
element i _ = none

-- `words[index] = word`
unfoldable pub set_at {ℓ} : {A : Type ℓ} → ℕ → A → List A → List A
set_at i a [] = []
set_at zero a (x ∷ xs) = a ∷ xs
set_at (suc i) a (x ∷ xs) = x ∷ set_at i a xs

-- `to_lowercase`, on ASCII.
unfoldable pub lower_word : Bytes → Bytes
lower_word = map λ c. if leb 65 c && ltb c 91 then c + 32 else c

-- `values.get(i).unwrap().as_str().unwrap().to_lowercase()`
unfoldable pub word_in : ℕ → Json → Option Bytes
unfolding element read_string lower_word
word_in i values = element i values >>= read_string >>= λ s. some (lower_word s)

-- The loop; `none` is the panic of an `unwrap`.
unfoldable pub load_loop : List Bytes → List Bytes → Entries → Option (List Bytes × List Bytes)
unfolding from_str_radix word_in set_at
load_loop even odd end = some (even, odd)
load_loop even odd (entry index_str values es) = from_str_radix index_str >>= λ index.
    word_in 1 values >>= λ e.
    word_in 0 values >>= λ o. load_loop (set_at index e even) (set_at index o odd) es

-- `load_pgpwords`
unfoldable pub load_pgpwords : Json → Option (List Bytes × List Bytes)
unfolding read_object load_loop
load_pgpwords raw = read_object raw >>= load_loop (replicate 256 []) (replicate 256 [])

-- The word that the last entry for an index gives, or what was there.
unfoldable pub last_word : ℕ → ℕ → Entries → Bytes → Bytes
unfolding from_str_radix word_in
last_word which i end before = before
last_word which i (entry k v es) before = elim (from_str_radix k) [
  | none ↦ last_word which i es before
  | some j ↦
      last_word which i es
        (if j == i then elim (word_in which v) [ none ↦ before | some w ↦ w ] else before)
]

module _ {ℓ} {A : Type ℓ} where
  length-set_at : (i : ℕ) (a : A) (xs : List A) → length (set_at i a xs) ≡ length xs
  unfolding set_at
  length-set_at i a [] = refl
  length-set_at zero a (x ∷ xs) = refl
  length-set_at (suc i) a (x ∷ xs) = ap suc (length-set_at i a xs)

  get_or-set_at :
      (i j : ℕ) (a d : A) (xs : List A)
      → i < length xs
      → get_or (set_at i a xs) j d ≡ (if i == j then a else get_or xs j d)
  unfolding set_at
  get_or-set_at i j a d [] h = absurd (omega (arith, h))
  get_or-set_at zero zero a d (x ∷ xs) h = refl
  get_or-set_at zero (suc j) a d (x ∷ xs) h = ground arith
  get_or-set_at (suc i) zero a d (x ∷ xs) h = ground arith
  get_or-set_at (suc i) (suc j) a d (x ∷ xs) h = ground (arith, get_or-set_at i j a d xs)

hex_digits-lt : (acc : ℕ) (cs : Bytes) (n : ℕ) → acc < 256 → hex_digits acc cs ≡ some n → n < 256
unfolding hex_digits
hex_digits-lt acc [] n l h = ground arith
hex_digits-lt acc (c ∷ cs) n l h = elim (Option-cases (hex_digit c)) [
  | inl bad ↦ let h' : none ≡ some n = rw bad at h in cc
  | inr (d, digit) ↦ elim (Bool-cases (ltb (acc * 16 + d) 256)) [
    | inl fits ↦
        let h' : hex_digits (acc * 16 + d) cs ≡ some n = rw (digit, fits) at h in
        hex_digits-lt (acc * 16 + d) cs n (ltb→lt (acc * 16 + d) 256 fits) h'
    | inr over ↦ let h' : none ≡ some n = rw (digit, over) at h in cc
  ]
]

some_digits-lt : (s : Bytes) (n : ℕ) → some_digits s ≡ some n → n < 256
unfolding some_digits
some_digits-lt [] n h = cc
some_digits-lt (c ∷ cs) n h = hex_digits-lt 0 (c ∷ cs) n (omega arith) h

from_str_radix-lt : (s : Bytes) (n : ℕ) → from_str_radix s ≡ some n → n < 256
unfolding from_str_radix
from_str_radix-lt [] n h = cc
from_str_radix-lt (c ∷ cs) n h = elim (Bool-cases (c == b'+')) [
  | inl plus ↦ some_digits-lt cs n (rw plus at h)
  | inr digit ↦ some_digits-lt (c ∷ cs) n (rw digit at h)
]

abbrev nothing : Bytes
nothing = []

empty : (n i : ℕ) → get_or (replicate n nothing) i [] ≡ nothing
empty zero i = refl
empty (suc n) zero = refl
empty (suc n) (suc i) = empty n i

-- The loop leaves both lists as long as they were, and at each index the word of the last entry for
-- it, or what was there.
load_loop-last_word :
    (even odd a b : List Bytes) (es : Entries) (i : ℕ)
    → length even ≡ 256
    → length odd ≡ 256
    → load_loop even odd es ≡ some (a, b)
    → (length a ≡ 256)
      × (length b ≡ 256)
      × (get_or a i [] ≡ last_word 1 i es (get_or even i []))
      × (get_or b i [] ≡ last_word 0 i es (get_or odd i []))
unfolding load_loop last_word
load_loop-last_word even odd a b end i n m h =
    let x : even ≡ a = cc h in let y : odd ≡ b = cc h in rw (← x, ← y) (n, m, refl, refl)
load_loop-last_word even odd a b (entry k v es) i n m h = elim (Option-cases (from_str_radix k)) [
  | inl bad ↦ let h' : none ≡ some (a, b) = rw bad at h in cc
  | inr (j, index) ↦ elim (Option-cases (word_in 1 v)) [
    | inl bad ↦ let h' : none ≡ some (a, b) = rw (index, bad) at h in cc
    | inr (e, one) ↦ elim (Option-cases (word_in 0 v)) [
      | inl bad ↦ let h' : none ≡ some (a, b) = rw (index, one, bad) at h in cc
      | inr (o, zeroth) ↦
          let h' : load_loop (set_at j e even) (set_at j o odd) es ≡ some (a, b) =
            rw (index, one, zeroth) at h in
          let small : j < 256 = from_str_radix-lt k j index in
          let (p, q, r, s) =
            load_loop-last_word (set_at j e even) (set_at j o odd) a b es i
              (length-set_at j e even ∙ n) (length-set_at j o odd ∙ m) h' in
          let at_even : get_or (set_at j e even) i [] ≡ (if j == i then e else get_or even i []) =
            get_or-set_at j i e [] even (omega (arith, n, small)) in
          let at_odd : get_or (set_at j o odd) i [] ≡ (if j == i then o else get_or odd i []) =
            get_or-set_at j i o [] odd (omega (arith, m, small)) in
          (
            p,
            q,
            r ∙ ap (last_word 1 i es) at_even ∙ (rw (last_word, index, one) refl),
            s ∙ ap (last_word 0 i es) at_odd ∙ (rw (last_word, index, zeroth) refl),
          )
    ]
  ]
]

-- If `load_pgpwords` takes the words from an object, both lists have 256 words, and the word at each
-- index is the one of the last entry whose key is that index in hexadecimal, the second of its array
-- for the even list and the first for the odd one, in lower case; it is empty where there is none.
pub load_pgpwords-last_word :
    (es : Entries) (even odd : List Bytes) (i : ℕ)
    → load_pgpwords (object es) ≡ some (even, odd)
    → (length even ≡ 256)
      × (length odd ≡ 256)
      × (get_or even i [] ≡ last_word 1 i es [])
      × (get_or odd i [] ≡ last_word 0 i es [])
unfolding load_pgpwords read_object
load_pgpwords-last_word es even odd i h =
    let (n, m, a, b) =
      load_loop-last_word (replicate 256 nothing) (replicate 256 nothing) even odd es i
        (length-replicate 256 nothing) (length-replicate 256 nothing) h in
    (n, m, a ∙ ap (last_word 1 i es) (empty 256 i), b ∙ ap (last_word 0 i es) (empty 256 i))
