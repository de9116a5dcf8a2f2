-- ===== src/Prelude/Text.antt =====
-- Texts as lists of characters: searching, cutting, splitting and joining at one character, and
-- the order of texts.
use Prim.Native.Nat.{Ordering}
use Prim.Native.Char.{Char, code}
use Prim.Native.String.{String, ◌++◌, compare}
use mathlib.Core.Path.{◌≡◌, refl, ap, ◌∙◌}
use mathlib.Core.Bool.{Bool, true, false}
use mathlib.Core.List.{List, [], ◌∷◌}
use native.Mathlib.Omega.{arith}
use text.Mathlib.TextEquality.{Char-path}
use text.Mathlib.TextLemmas.{nil-append, cons-append}
use mathlib.Core.Logic.{inl, inr}
use enseada.Prelude.Tests.{nat_eq, if◌then◌else◌, Bool-cases}

abbrev pub same : Char → Char → Bool
same x c = nat_eq (code x) (code c)

same-eq : (x c : Char) → same x c ≡ true → x ≡ c
same-eq x c h = Char-path x c (ground arith)

pub same_refl : (c : Char) → same c c ≡ true
same_refl c = ground arith

-- s.contains(c)
unfoldable pub contains : Char → String → Bool
contains c String.[] = false
contains c (String.◌∷◌ x s) = let rest = contains c s in if same x c then true else rest

-- The part of a text before the first `c`, or all of it.
unfoldable pub before : Char → String → String
before c String.[] = String.[]
before c (String.◌∷◌ x s) =
    let rest = before c s in if same x c then String.[] else String.◌∷◌ x rest

-- The part behind the first `c`, or nothing of it.
unfoldable pub after : Char → String → String
after c String.[] = String.[]
after c (String.◌∷◌ x s) = let rest = after c s in if same x c then s else rest

abbrev into_first : Char → List String → List String
into_first x [] = (String.◌∷◌ x String.[]) ∷ []
into_first x (w ∷ ws) = (String.◌∷◌ x w) ∷ ws

-- s.split(c): never empty, with an empty part for each `c` at an end or beside another.
unfoldable pub split : Char → String → List String
split c String.[] = String.[] ∷ []
split c (String.◌∷◌ x s) =
    let rest = split c s in if same x c then String.[] ∷ rest else into_first x rest

-- parts.join(c)
unfoldable pub join : Char → List String → String
join c [] = String.[]
join c (w ∷ []) = w
join c (w ∷ v ∷ ws) = w ++ String.◌∷◌ c (join c (v ∷ ws))

-- `Ord` of texts
abbrev pub str_le : String → String → Bool
str_le s t = elim (compare s t) [ Ordering.gt ↦ false | _ ↦ true ]

unfoldable pub insert_sorted : String → List String → List String
insert_sorted s [] = s ∷ []
insert_sorted s (t ∷ ts) =
    let rest = insert_sorted s ts in if str_le s t then s ∷ t ∷ ts else t ∷ rest

-- vec.sort()
unfoldable pub sort : List String → List String
unfolding insert_sorted
sort [] = []
sort (s ∷ ss) = insert_sorted s (sort ss)

module _ (c : Char) where
  -- A text that has a `c` is its part before the first one, that `c`, and the part behind it.
  pub cut : (s : String) → contains c s ≡ true → before c s ++ String.◌∷◌ c (after c s) ≡ s
  unfolding contains before after
  cut String.[] h = cc
  cut (String.◌∷◌ x s) h = elim (Bool-cases (same x c)) [
    | inl e ↦ rw e (rw (same-eq x c e) (nil-append _))
    | inr e ↦ rw e (cons-append x _ _ ∙ ap (String.◌∷◌ x) (cut s (ground arith)))
  ]

  pub contains-cons_append : (s t : String) → contains c (s ++ String.◌∷◌ c t) ≡ true
  unfolding contains
  contains-cons_append String.[] t = rw nil-append (ground arith)
  contains-cons_append (String.◌∷◌ x s) t =
      rw cons-append (ground (arith, contains-cons_append s t))

  pub before-append : (s t : String) → contains c s ≡ false → before c (s ++ String.◌∷◌ c t) ≡ s
  unfolding contains before
  before-append String.[] t h = rw nil-append (ground arith)
  before-append (String.◌∷◌ x s) t h = rw cons-append (ground (arith, before-append s t))

  pub after-append : (s t : String) → contains c s ≡ false → after c (s ++ String.◌∷◌ c t) ≡ t
  unfolding contains after
  after-append String.[] t h = rw nil-append (ground arith)
  after-append (String.◌∷◌ x s) t h = rw cons-append (ground (arith, after-append s t))

  split_none : (s : String) → contains c s ≡ false → split c s ≡ s ∷ []
  unfolding contains split
  split_none String.[] h = refl
  split_none (String.◌∷◌ x s) h = ground (arith, split_none s)

  split-append :
      (s t : String) → contains c s ≡ false → split c (s ++ String.◌∷◌ c t) ≡ s ∷ split c t
  unfolding contains split
  split-append String.[] t h = rw nil-append (ground arith)
  split-append (String.◌∷◌ x s) t h = rw cons-append (ground (arith, split-append s t))

  abbrev pub NoneHas : List String → Type 0
  NoneHas [] = Unit
  NoneHas (w ∷ ws) = (contains c w ≡ false) × NoneHas ws

  -- Joined words come back, if there is one at least and none has the separator.
  pub split-join :
      (w : String) (ws : List String) → NoneHas (w ∷ ws) → split c (join c (w ∷ ws)) ≡ w ∷ ws
  unfolding join
  split-join w [] h = split_none w h.0
  split-join w (v ∷ ws) h = split-append w _ h.0 ∙ ap (◌∷◌ w) (split-join v ws h.1)
