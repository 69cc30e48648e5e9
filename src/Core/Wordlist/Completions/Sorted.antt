-- ===== src/Core/Wordlist/Completions/Sorted.antt =====
-- The sorting of the completions of src/core/wordlist.rs.
use mathlib.Core.List.Perm
use mathlib.Core.List.{Perm}
use magic_wormhole_rs.Common.{
  ◌≡◌, refl, List, [], ◌∷◌, true, false, Bytes, Bool-cases, inl, inr, arith,
}
use magic_wormhole_rs.Core.Wordlist.Completions.{bytes_leb, insert_sorted, sort}

-- Each entry is at most the next one.
pub IsSorted : List Bytes → Type 0
IsSorted [] = Unit
IsSorted (x ∷ []) = Unit
IsSorted (x ∷ y ∷ ys) = (bytes_leb x y ≡ true) × IsSorted (y ∷ ys)

bytes_leb-total : (a b : Bytes) → bytes_leb a b ≡ false → bytes_leb b a ≡ true
unfolding bytes_leb
bytes_leb-total [] b h = cc
bytes_leb-total (x ∷ a) [] h = refl
bytes_leb-total (x ∷ a) (y ∷ b) h = ground (arith, h, bytes_leb-total a b)

-- Inserting behind an entry that is not greater.
behind-IsSorted :
    (x y : Bytes) (ys : List Bytes)
    → bytes_leb y x ≡ true
    → IsSorted (y ∷ ys)
    → IsSorted (insert_sorted x ys)
    → IsSorted (y ∷ insert_sorted x ys)
unfolding insert_sorted IsSorted
behind-IsSorted x y [] h s t = (h, tt)
behind-IsSorted x y (z ∷ zs) h s t = elim (Bool-cases (bytes_leb x z)) [
  | inl le ↦ rw (le, insert_sorted) (h, (rw (le, insert_sorted) at t))
  | inr gt ↦ rw (gt, insert_sorted) (s.0, (rw (gt, insert_sorted) at t))
]

rest-IsSorted : (y : Bytes) (ys : List Bytes) → IsSorted (y ∷ ys) → IsSorted ys
unfolding IsSorted
rest-IsSorted y [] s = tt
rest-IsSorted y (z ∷ zs) s = s.1

insert_sorted-IsSorted : (x : Bytes) (ys : List Bytes) → IsSorted ys → IsSorted (insert_sorted x ys)
unfolding insert_sorted IsSorted
insert_sorted-IsSorted x [] s = tt
insert_sorted-IsSorted x (y ∷ ys) s = elim (Bool-cases (bytes_leb x y)) [
  | inl le ↦ rw (le, insert_sorted) (le, s)
  | inr gt ↦
      let later : IsSorted (insert_sorted x ys) =
        insert_sorted-IsSorted x ys (rest-IsSorted y ys s) in
      rw (gt, insert_sorted) (behind-IsSorted x y ys (bytes_leb-total x y gt) s later)
]

pub sort-IsSorted : (xs : List Bytes) → IsSorted (sort xs)
unfolding sort IsSorted
sort-IsSorted [] = tt
sort-IsSorted (x ∷ xs) = insert_sorted-IsSorted x (sort xs) (sort-IsSorted xs)

insert_sorted-Perm : (x : Bytes) (ys : List Bytes) → Perm (insert_sorted x ys) (x ∷ ys)
unfolding insert_sorted
insert_sorted-Perm x [] = Perm.rfl
insert_sorted-Perm x (y ∷ ys) = elim (Bool-cases (bytes_leb x y)) [
  | inl le ↦ rw le Perm.rfl
  | inr gt ↦ rw gt (Perm.trans (Perm.cons y (insert_sorted-Perm x ys)) (Perm.swap x y ys))
]

pub sort-Perm : (xs : List Bytes) → Perm (sort xs) xs
unfolding sort
sort-Perm [] = Perm.nil
sort-Perm (x ∷ xs) = Perm.trans (insert_sorted-Perm x (sort xs)) (Perm.cons x (sort-Perm xs))
