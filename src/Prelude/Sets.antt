-- ===== src/Prelude/Sets.antt =====
-- `HashSet<String>` as a list, read through the membership test `has`.
use Prim.Native.String.{String}
use mathlib.Core.Path.{◌≡◌, refl}
use mathlib.Core.Bool.{Bool, true, false, ◌&&◌, ◌||◌}
use mathlib.Core.List.{List, [], ◌∷◌}
use native.Mathlib.Omega.{arith}
use text.Mathlib.Text.{◌==◌}
use text.Mathlib.TextEquality.{eq_iff}
use text.Mathlib.TextPositions.{eq_refl}
use enseada.Prelude.Tests.{if◌then◌else◌}

-- set.contains(s)
unfoldable pub has : List String → String → Bool
has [] s = false
has (x ∷ xs) s = (x == s) || has xs s

-- set.insert(s)
unfoldable pub add : String → List String → List String
add s xs = if has xs s then xs else s ∷ xs

-- iter.collect()
unfoldable pub collect : List String → List String
unfolding add
collect [] = []
collect (x ∷ xs) = add x (collect xs)

-- The entries of the first set that the second has too: self.intersection(other).
unfoldable pub intersection : List String → List String → List String
intersection [] ys = []
intersection (x ∷ xs) ys = let rest = intersection xs ys in if has ys x then x ∷ rest else rest

-- self.is_superset(other)
unfoldable pub superset : List String → List String → Bool
superset xs [] = true
superset xs (y ∷ ys) = has xs y && superset xs ys

-- set.is_empty()
unfoldable pub is_empty : List String → Bool
is_empty [] = true
is_empty (x ∷ xs) = false

pub has-add : (x s : String) (xs : List String) → has (add x xs) s ≡ ((x == s) || has xs s)
unfolding has add
has-add x s xs = ground (arith, eq_iff x s)

pub has-collect : (s : String) (xs : List String) → has (collect xs) s ≡ has xs s
unfolding has collect
has-collect s [] = refl
has-collect s (x ∷ xs) = ground (arith, eq_iff x s, has-collect s xs, has-collect x xs)

pub has-intersection :
    (s : String) (xs ys : List String) → has (intersection xs ys) s ≡ (has xs s && has ys s)
unfolding has intersection
has-intersection s [] ys = refl
has-intersection s (x ∷ xs) ys = ground (arith, eq_iff x s, has-intersection s xs ys)

pub superset-has :
    (s : String) (xs ys : List String) → superset xs ys ≡ true → has ys s ≡ true → has xs s ≡ true
unfolding has superset
superset-has s xs [] h m = cc
superset-has s xs (y ∷ ys) h m = ground (arith, eq_iff y s, superset-has s xs ys)

has-cons_tail : (y s : String) (ys : List String) → has ys s ≡ true → has (y ∷ ys) s ≡ true
unfolding has
has-cons_tail y s ys h = ground arith

pub superset_of_has :
    (xs ys : List String)
    → ((s : String) → has ys s ≡ true → has xs s ≡ true)
    → superset xs ys ≡ true
unfolding has superset
superset_of_has xs [] h = refl
superset_of_has xs (y ∷ ys) h = ground (
  arith,
  eq_refl y,
  h y,
  superset_of_has xs ys (λ (s : String) (m : has ys s ≡ true). h s (has-cons_tail y s ys m)),
)

pub not-has_of_is_empty : (s : String) (xs : List String) → is_empty xs ≡ true → has xs s ≡ false
unfolding has is_empty
not-has_of_is_empty s [] h = refl
not-has_of_is_empty s (x ∷ xs) h = cc

pub is_empty_of_not-has :
    (xs : List String) → ((s : String) → has xs s ≡ false) → is_empty xs ≡ true
unfolding has is_empty
is_empty_of_not-has [] h = refl
is_empty_of_not-has (x ∷ xs) h = ground (arith, h x, eq_refl x)
