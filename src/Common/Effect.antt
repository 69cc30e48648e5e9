-- ===== src/Common/Effect.antt =====
-- The effects of the program's `async fn`s. A run is given all the input that has arrived: where
-- the code would wait for more, the outcome is `pending`. `?` is the bind, which keeps the state
-- that the failed call left.
use mathlib.Core.Path.{◌≡◌, refl, ap}
use mathlib.Core.Bool.{Bool, true, false}
use mathlib.Core.Option.{Option, none, some}

-- `panic` is an `unwrap`, `expect`, `assert!`, `todo!` or slice index that fails.
pub data Outcome {ℓ κ} (E : Type ℓ) (A : Type κ) : Type (ℓ ⊔ κ) where
  ok : A → Outcome E A
  err : E → Outcome E A
  panic : Outcome E A
  pending : Outcome E A

-- A call that reads and writes the state `S`.
abbrev pub Action {ℓ κ μ} : Type ℓ → Type κ → Type μ → Type (ℓ ⊔ κ ⊔ μ)
Action S E A = S → Outcome E A × S

module _ {ℓ κ μ ν} {S : Type ℓ} {E : Type κ} {A : Type μ} {B : Type ν} where
  -- What follows a call that has ended.
  abbrev pub after : Outcome E A × S → (A → Action S E B) → Outcome E B × S
  after (ok a, s) f = f a s
  after (err e, s) f = (err e, s)
  after (panic, s) f = (panic, s)
  after (pending, s) f = (pending, s)

  infixl 5 ◌>>=◌
  abbrev pub ◌>>=◌ : Action S E A → (A → Action S E B) → Action S E B
  ◌>>=◌ m f s = after (m s) f

  infixl 5 ◌>>◌
  abbrev pub ◌>>◌ : Action S E A → Action S E B → Action S E B
  ◌>>◌ m k s = after (m s) (λ _. k)

module _ {ℓ κ μ} {S : Type ℓ} {E : Type κ} {A : Type μ} where
  abbrev pub return : A → Action S E A
  return a s = (ok a, s)

  -- `return Err(e)`
  abbrev pub fail : E → Action S E A
  fail e s = (err e, s)

  abbrev pub crash : Action S E A
  crash s = (panic, s)

  -- `.ok_or(e)?`
  abbrev pub ok_or : Option A → E → Action S E A
  ok_or none e s = (err e, s)
  ok_or (some a) e s = (ok a, s)

  -- `.expect(…)` and `.unwrap()`
  abbrev pub expect : Option A → Action S E A
  expect none s = (panic, s)
  expect (some a) s = (ok a, s)

module _ {ℓ κ} {S : Type ℓ} {E : Type κ} where
  -- The `ensure!` macro of src/util.rs.
  abbrev pub ensure : Bool → E → Action S E (Unit {0})
  ensure true e s = (ok tt, s)
  ensure false e s = (err e, s)

  abbrev pub assert : Bool → Action S E (Unit {0})
  assert true s = (ok tt, s)
  assert false s = (panic, s)

-- A call chain that ended well: so did its first call, and the rest from the state that it left.
pub after-eq-ok {ℓ κ μ ν} :
    {S : Type ℓ} {E : Type κ} {A : Type μ} {B : Type ν} (r : Outcome E A × S) (f : A → Action S E B)
    {b : B} {t : S}
    → after r f ≡ (ok b, t)
    → (a : A) × (s : S) × (r ≡ (ok a, s)) × (f a s ≡ (ok b, t))
after-eq-ok (ok a, s) f h = (a, s, refl, h)
after-eq-ok (err e, s) f h = cc
after-eq-ok (panic, s) f h = cc
after-eq-ok (pending, s) f h = cc

module _ {ℓ κ μ ν} {S : Type ℓ} {E : Type κ} {A : Type μ} {B : Type ν} where
  -- The same for a chain that begins with an option.
  pub ok_or-ok :
      (o : Option A) (e : E) (f : A → Action S E B) (s t : S) (b : B)
      → after (ok_or o e s) f ≡ (ok b, t)
      → (a : A) × (o ≡ some a) × (f a s ≡ (ok b, t))
  ok_or-ok none e f s t b h = cc
  ok_or-ok (some a) e f s t b h = (a, refl, h)

  pub expect-ok :
      (o : Option A) (f : A → Action S E B) (s t : S) (b : B)
      → after (expect o s) f ≡ (ok b, t)
      → (a : A) × (o ≡ some a) × (f a s ≡ (ok b, t))
  expect-ok none f s t b h = cc
  expect-ok (some a) f s t b h = (a, refl, h)

pub ensure-ok {ℓ κ} :
    {S : Type ℓ} {E : Type κ} (b : Bool) (e : E) (s : S) (r : Outcome E (Unit {0}) × S)
    → r.0 ≡ ok tt
    → Path (Outcome E (Unit {0}) × S) (ensure b e s) r
    → b ≡ true
ensure-ok true e s r k h = refl
ensure-ok false e s r k h = let x : err e ≡ r.0 = ap (λ y. y.0) h in cc

-- A property of the state after two calls, each whatever its outcome.
pub after-reach {ℓ κ μ ν ξ} :
    {S : Type ℓ} {E : Type κ} {A : Type μ} {B : Type ν} (P : S → Type ξ) (r : Outcome E A × S)
    (f : A → Action S E B)
    → P r.1
    → ((a : A) → r.0 ≡ ok a → P (f a r.1).1)
    → P (after r f).1
after-reach P (ok a, s) f p q = q a refl
after-reach P (err e, s) f p q = p
after-reach P (panic, s) f p q = p
after-reach P (pending, s) f p q = p
