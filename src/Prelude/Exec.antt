-- ===== src/Prelude/Exec.antt =====
-- What an operation of the server does: it returns, fails with an error, or panics, and leaves a
-- new world in each case, since what was written before a failure stays written.
use mathlib.Core.Path.{◌≡◌, refl}
use mathlib.Core.Logic.{◌⊎◌, inl, inr}
use mathlib.Core.Bool.{Bool, true, false}
use native.Mathlib.Omega.{arith}
use mathlib.Core.Option.{Option, none, some}

pub data Outcome (E A : Type 0) : Type 0 where
  ok : A → Outcome E A
  err : E → Outcome E A
  panic : Outcome E A

pub Outcome-cases :
    {E A : Type 0} (r : Outcome E A)
    → ((a : A) × (r ≡ ok a)) ⊎ ((e : E) × (r ≡ err e)) ⊎ (r ≡ panic)
Outcome-cases (ok a) = inl (a, refl)
Outcome-cases (err e) = inr (inl (e, refl))
Outcome-cases panic = inr (inr refl)

abbrev pub Exec : Type 0 → Type 0 → Type 0 → Type 0
Exec W E A = W → Outcome E A × W

module _ {W E A : Type 0} where
  abbrev pub pure : A → Exec W E A
  pure a w = (ok a, w)

  abbrev pub fail : E → Exec W E A
  fail e w = (err e, w)

  abbrev pub lift : Outcome E A → Exec W E A
  lift r w = (r, w)

  -- An operation that cannot fail.
  abbrev pub total : (W → A × W) → Exec W E A
  total f w = let (a, w') = f w in (ok a, w')

  -- o.ok_or_else(e)
  abbrev pub ok_or : E → Option A → Exec W E A
  ok_or e none w = (err e, w)
  ok_or e (some a) w = (ok a, w)

  -- o.unwrap()
  abbrev pub unwrap : Option A → Exec W E A
  unwrap none w = (panic, w)
  unwrap (some a) w = (ok a, w)

module _ {W E : Type 0} where
  abbrev pub ensure : Bool → E → Exec W E (Unit {0})
  ensure true e w = (ok tt, w)
  ensure false e w = (err e, w)

module _ {W E A B : Type 0} where
  abbrev pub continue : Outcome E A → (A → Exec W E B) → Exec W E B
  continue (ok a) f w = f a w
  continue (err e) f w = (err e, w)
  continue panic f w = (panic, w)

  infixl 5 ◌>>=◌ ◌>>◌
  abbrev pub ◌>>=◌ : Exec W E A → (A → Exec W E B) → Exec W E B
  ◌>>=◌ m f w = continue (m w).0 f (m w).1

  abbrev pub ◌>>◌ : Exec W E A → Exec W E B → Exec W E B
  m >> n = m >>= λ _. n

module _ {E F A : Type 0} where
  abbrev pub map_outcome : (E → F) → Outcome E A → Outcome F A
  map_outcome g (ok a) = ok a
  map_outcome g (err e) = err (g e)
  map_outcome g panic = panic

-- r.map_err(g)
abbrev pub map_err : {W E F A : Type 0} → (E → F) → Exec W E A → Exec W F A
map_err g m w = (map_outcome g (m w).0, (m w).1)

abbrev pub expected : {E F A : Type 0} → Outcome E A → Outcome F A
expected (ok a) = ok a
expected (err e) = panic
expected panic = panic

-- r.unwrap(), which panics on an error.
abbrev pub expect : {W E F A : Type 0} → Exec W E A → Exec W F A
expect m w = (expected (m w).0, (m w).1)

abbrev pub discarded : {E F A : Type 0} → Outcome E A → Outcome F (Option A)
discarded (ok a) = ok (some a)
discarded (err e) = ok none
discarded panic = panic

-- r.ok(), which drops an error.
abbrev pub try : {W E F A : Type 0} → Exec W E A → Exec W F (Option A)
try m w = (discarded (m w).0, (m w).1)

module _ {W E A B : Type 0} where
  -- A chain that succeeds has a first part that does, and a rest.
  pub ok_of_bind :
      (m : Exec W E A) (f : A → Exec W E B) (b : B) (w w' : W)
      → (m >>= f) w ≡ (ok b, w')
      → (a : A) × (v : W) × (m w ≡ (ok a, v)) × (f a v ≡ (ok b, w'))
  ok_of_bind m f b w w' h = elim (Outcome-cases (m w).0) [
    | inl (a, e) ↦ (a, (m w).1, ground arith, ground arith)
    | inr (inl (x, e)) ↦ absurd (ground arith)
    | inr (inr e) ↦ absurd (ground arith)
  ]

-- What each part of a chain keeps, the chain keeps.
pub continue-keeps :
    {W E A B : Type 0} (P : W → Type 0) (r : Outcome E A) (f : A → Exec W E B) (w : W)
    → P w
    → ((a : A) → P (f a w).1)
    → P (continue r f w).1
continue-keeps P (ok a) f w first next = next a
continue-keeps P (err x) f w first next = first
continue-keeps P panic f w first next = first
