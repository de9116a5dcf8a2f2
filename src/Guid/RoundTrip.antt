-- ===== src/Guid/RoundTrip.antt =====
-- Guids, printed and read back.
use Prim.Native.String.{String, ◌++◌}
use mathlib.Core.Option.{Option, none, some}
use text.Mathlib.TextLemmas.{nil-append, append_assoc, cons-append}
use enseada.Prelude.{◌≡◌, false, ◌∙◌, ap, inl, inr, Bool-cases}
use enseada.Prelude.Text.{
  contains, before, after, cut, contains-cons_append, before-append, after-append,
}
use enseada.Guid.{Guid, colon, simple, partitioned, to_string, from}

-- The partition has no colon, and without a partition the id has none.
abbrev pub IsPlain : Guid → Type 0
IsPlain g = elim g.partition [
  | none ↦ contains colon g.id ≡ false
  | some p ↦ contains colon p ≡ false
]

-- A partition, a colon and an id read as one text.
pub colon_between : (p i : String) → (p ++ ":") ++ i ≡ p ++ String.◌∷◌ colon i
colon_between p i =
    append_assoc p ":" i
    ∙ ap (◌++◌ p) (cons-append colon String.[] i ∙ ap (String.◌∷◌ colon) (nil-append i))

-- Every text is the text of the guid that is read from it.
pub to_string-from : (s : String) → to_string (from s) ≡ s
unfolding to_string from
to_string-from s = elim (Bool-cases (contains colon s)) [
  | inl e ↦ rw e (colon_between (before colon s) (after colon s) ∙ cut colon s e)
  | inr e ↦ rw e (nil-append s)
]

pub from_partitioned :
    (p i : String) → contains colon p ≡ false → from (p ++ String.◌∷◌ colon i) ≡ partitioned p i
unfolding from partitioned
from_partitioned p i h =
    rw (contains-cons_append colon p i, before-append colon p i h, after-append colon p i h)

from_simple : (i : String) → contains colon i ≡ false → from i ≡ simple i
unfolding from simple
from_simple i h = rw h

-- A guid whose partition has no colon, or that has neither a partition nor a colon, is read back
-- from its text.
pub from-to_string : (g : Guid) → IsPlain g → from (to_string g) ≡ g
unfolding to_string simple partitioned
from-to_string g = go g.partition g.id
  where
    go :
        (p : Option String) (i : String)
        → IsPlain (record { partition = p; id = i })
        → from (to_string (record { partition = p; id = i })) ≡ record { partition = p; id = i }
    go none i h = rw nil-append (from_simple i h)
    go (some p) i h = rw (colon_between p i) (from_partitioned p i h)
