-- ===== src/Core/Wordlist.antt =====
-- src/core/wordlist.rs: the words of a code. The words are read from a file of the repository, and
-- drawing is the random generator's.
pub mod Completions
pub mod Load
use mathlib.Core.Option
use native.Mathlib.Nat.{mod-lt}
use magic_wormhole_rs.Common.{
  ℕ, zero, suc, ◌%◌, ◌<◌, ◌≡◌, refl, List, [], ◌∷◌, ◌++◌, Option, none, some, Bool, true, false,
  Bytes, length, get_elem?, contains, bytes_eq_iff, ap, arith,
}

pub record Wordlist : Type 0 where
  pub num_words : ℕ
  pub words : List (List Bytes)

-- `iter().cycle().take(n)`, `rest` being what is left of the present round.
unfoldable pub cycle_take {ℓ} : {A : Type ℓ} → ℕ → List A → List A → List A
cycle_take zero all rest = []
cycle_take (suc n) all (x ∷ rest) = x ∷ cycle_take n all rest
cycle_take (suc n) [] [] = []
cycle_take (suc n) (x ∷ xs) [] = x ∷ cycle_take n (x ∷ xs) xs

-- `words.choose(&mut rng)`, with the number drawn.
unfoldable pub choose : ℕ → List Bytes → Option Bytes
choose drawn words = get_elem? words (drawn % length words)

cons_some : Option Bytes → Option (List Bytes) → Option (List Bytes)
cons_some none xs = none
cons_some (some x) none = none
cons_some (some x) (some xs) = some (x ∷ xs)

-- A word of each list; `none` is the panic of `unwrap` on an empty list.
unfoldable pub choose_all : (ℕ → ℕ) → List (List Bytes) → Option (List Bytes)
unfolding choose cons_some
choose_all draw [] = some []
choose_all draw (ws ∷ rest) = cons_some (choose (draw 0) ws) (choose_all (λ i. draw (suc i)) rest)

-- `components.join("-")`
unfoldable pub join : List Bytes → Bytes
join [] = []
join (x ∷ []) = x
join (x ∷ y ∷ rest) = x ++ (45 ∷ join (y ∷ rest))

-- `Wordlist::choose_words`
unfoldable pub choose_words : (ℕ → ℕ) → Wordlist → Option Bytes
unfolding cycle_take choose_all join
choose_words draw w = Option.map join (choose_all draw (cycle_take w.num_words w.words w.words))

-- `default_wordlist`, on the two lists that `load_pgpwords` gives.
unfoldable pub default_wordlist : List Bytes → List Bytes → ℕ → Wordlist
default_wordlist even odd num_words = record { num_words = num_words; words = even ∷ odd ∷ [] }

-- The words are taken in turn from the two lists.
abbrev pub Alternate : List Bytes → List Bytes → List Bytes → Type 0
Alternate a b [] = Unit {0}
Alternate a b (x ∷ xs) = (contains x a ≡ true) × Alternate b a xs

get_elem-contains :
    (ws : List Bytes) (i : ℕ) (x : Bytes) → get_elem? ws i ≡ some x → contains x ws ≡ true
unfolding contains
get_elem-contains [] i x h = cc
get_elem-contains (w ∷ ws) zero x h = ground (arith, bytes_eq_iff w x)
get_elem-contains (w ∷ ws) (suc i) x h = ground (arith, get_elem-contains ws i x)

get_elem-total : (ws : List Bytes) (i : ℕ) → i < length ws → (x : Bytes) × (get_elem? ws i ≡ some x)
get_elem-total [] i h = absurd (omega (arith, h))
get_elem-total (w ∷ ws) zero h = (w, refl)
get_elem-total (w ∷ ws) (suc i) h = get_elem-total ws i (omega (arith, h))

choose-total : (r : ℕ) (ws : List Bytes) → 0 < length ws → (x : Bytes) × (choose r ws ≡ some x)
unfolding choose
choose-total r ws h = get_elem-total ws (r % length ws) (mod-lt r h)

cons_some-ok :
    (o : Option Bytes) (os : Option (List Bytes)) (ys : List Bytes)
    → cons_some o os ≡ some ys
    → (x : Bytes) × (xs : List Bytes) × (o ≡ some x) × (os ≡ some xs) × (ys ≡ x ∷ xs)
unfolding cons_some
cons_some-ok none os ys h = cc
cons_some-ok (some x) none ys h = cc
cons_some-ok (some x) (some xs) ys h = (x, xs, refl, refl, cc h)

module _ (a b : List Bytes) where
  abbrev from : Bool → List (List Bytes)
  from true = a ∷ b ∷ []
  from false = b ∷ []

  abbrev Turns : Bool → List Bytes → Type 0
  Turns true xs = Alternate a b xs
  Turns false xs = Alternate b a xs

  restart : (n : ℕ) → cycle_take n (a ∷ b ∷ []) [] ≡ cycle_take n (a ∷ b ∷ []) (a ∷ b ∷ [])
  unfolding cycle_take
  restart zero = refl
  restart (suc n) = refl

  choose_all-Turns :
      (n : ℕ) (turn : Bool) (draw : ℕ → ℕ) (ys : List Bytes)
      → choose_all draw (cycle_take n (a ∷ b ∷ []) (from turn)) ≡ some ys
      → (length ys ≡ n) × Turns turn ys
  unfolding choose_all cycle_take choose
  choose_all-Turns zero true draw ys h =
      let none_left : [] ≡ ys = cc h in rw (← none_left) (refl, tt)
  choose_all-Turns zero false draw ys h =
      let none_left : [] ≡ ys = cc h in rw (← none_left) (refl, tt)
  choose_all-Turns (suc n) true draw ys h =
      let (x, xs, one, more, e) = cons_some-ok _ _ ys h in
      let (l, t) = choose_all-Turns n false (λ i. draw (suc i)) xs more in
      rw e (omega (arith, l), (get_elem-contains a _ x one, t))
  choose_all-Turns (suc n) false draw ys h =
      let (x, xs, one, more, e) = cons_some-ok _ _ ys h in
      let (l, t) = choose_all-Turns n true (λ i. draw (suc i)) xs (rw (← restart n) more) in
      rw e (omega (arith, l), (get_elem-contains b _ x one, t))

  choose_all-total :
      0 < length a
      → 0 < length b
      → (n : ℕ) (turn : Bool) (draw : ℕ → ℕ)
      → (ys : List Bytes) × (choose_all draw (cycle_take n (a ∷ b ∷ []) (from turn)) ≡ some ys)
  unfolding choose_all cycle_take cons_some
  choose_all-total na nb zero true draw = ([], refl)
  choose_all-total na nb zero false draw = ([], refl)
  choose_all-total na nb (suc n) true draw =
      let (x, e) = choose-total (draw 0) a na in
      let (xs, f) = choose_all-total na nb n false (λ i. draw (suc i)) in (x ∷ xs, rw (e, f) refl)
  choose_all-total na nb (suc n) false draw =
      let (x, e) = choose-total (draw 0) b nb in
      let (xs, f) = choose_all-total na nb n true (λ i. draw (suc i)) in
      (x ∷ xs, rw (e, restart n, f) refl)

  -- From two lists that are not empty, `choose_words` makes a text whatever numbers are drawn: as many
  -- words as asked for, joined with dashes, taken in turn from the first and from the second list.
  pub choose_words-Alternate :
      (n : ℕ) (draw : ℕ → ℕ)
      → 0 < length a
      → 0 < length b
      → (ys : List Bytes) × (choose_words draw (default_wordlist a b n) ≡ some (join ys))
        × (length ys ≡ n)
        × Alternate a b ys
  unfolding choose_words default_wordlist
  choose_words-Alternate n draw na nb =
      let (ys, e) = choose_all-total na nb n true draw in
      let (l, t) = choose_all-Turns n true draw ys e in (ys, ap (Option.map join) e, l, t)
