-- ===== src/Core/Json/Laws.antt =====
-- What the readers make of what the writers wrote, and of an object with further entries.
use magic_wormhole_rs.Common.{
  ℕ, ◌<◌, ◌≡◌, refl, List, [], ◌∷◌, Option, none, some, false, Bytes, lt→ltb, bytes_eq, All,
}
use magic_wormhole_rs.Core.Json.{
  Json, number, Entries, entry, ◌>>=◌, field, read_number, read_elements, write_elements,
}

pub read_number-number : (limit n : ℕ) → n < limit → read_number limit (number n) ≡ some n
unfolding read_number
read_number-number limit n h = rw (lt→ltb n limit h) refl

module _ {ℓ} {A : Type ℓ} (read : Json → Option A) (write : A → Json) where
  pub read_elements-write_elements :
      (xs : List A)
      → All (λ a. read (write a) ≡ some a) xs
      → read_elements read (write_elements write xs) ≡ some xs
  read_elements-write_elements [] h = refl
  read_elements-write_elements (a ∷ xs) h = rw (h.0, read_elements-write_elements xs h.1) refl

-- A further entry under another key is not seen.
pub field-other :
    (key k : Bytes) (v : Json) (es : Entries)
    → bytes_eq k key ≡ false
    → field key (entry k v es) ≡ field key es
unfolding field
field-other key k v es h = rw h refl

-- A chain of reads fails where every way to go on fails.
pub none->>= {ℓ κ} :
    {A : Type ℓ} {B : Type κ} (o : Option A) {f : A → Option B}
    → ((a : A) → f a ≡ none)
    → (o >>= f) ≡ none
none->>= none h = refl
none->>= (some a) h = h a
