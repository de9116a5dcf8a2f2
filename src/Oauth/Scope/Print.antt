-- ===== src/Oauth/Scope/Print.antt =====
-- Scopes, printed and read back.
use enseada.Prelude.{String, ◌≡◌, refl, ◌≢◌, ◌∙◌, ap, false, arith, List, [], ◌∷◌, ◌||◌, ◌==◌}
use enseada.Prelude.Text.{contains, split, join, sort, insert_sorted, NoneHas, split-join}
use enseada.Prelude.Sets.{has, has-collect}
use enseada.Oauth.Scope.{space, from, to_string}

has-insert_sorted :
    (t s : String) (ss : List String) → has (insert_sorted s ss) t ≡ ((s == t) || has ss t)
unfolding has insert_sorted
has-insert_sorted t s [] = refl
has-insert_sorted t s (r ∷ ss) = ground (arith, has-insert_sorted t s ss)

has-sort : (t : String) (ss : List String) → has (sort ss) t ≡ has ss t
unfolding has sort
has-sort t [] = refl
has-sort t (s ∷ ss) = has-insert_sorted t s (sort ss) ∙ ap (λ b. (s == t) || b) (has-sort t ss)

insert_sorted-NoneHas :
    (s : String) (ss : List String)
    → contains space s ≡ false
    → NoneHas space ss
    → NoneHas space (insert_sorted s ss)
unfolding insert_sorted
insert_sorted-NoneHas s [] h k = (h, tt)
insert_sorted-NoneHas s (r ∷ ss) h k = ground (arith, insert_sorted-NoneHas s ss h k.1)

sort-NoneHas : (ss : List String) → NoneHas space ss → NoneHas space (sort ss)
unfolding sort
sort-NoneHas [] k = tt
sort-NoneHas (s ∷ ss) k = insert_sorted-NoneHas s (sort ss) k.0 (sort-NoneHas ss k.1)

insert_sorted_ne : (s : String) (ss : List String) → insert_sorted s ss ≢ []
unfolding insert_sorted
insert_sorted_ne s [] h = cc
insert_sorted_ne s (r ∷ ss) h = ground arith

split-join_ne : (ss : List String) → ss ≢ [] → NoneHas space ss → split space (join space ss) ≡ ss
split-join_ne [] ne h = absurd (ne refl)
split-join_ne (s ∷ ss) ne h = split-join space s ss h

-- A scope with one name at least, none of which has a space, is printed as a text from which
-- exactly its names are read.
pub has-from-to_string :
    (n : String) (ns : List String) (s : String)
    → NoneHas space (n ∷ ns)
    → has (from (to_string (record { names = n ∷ ns }))).names s ≡ has (n ∷ ns) s
unfolding from to_string
has-from-to_string n ns s h =
    rw
      (split-join_ne (sort (n ∷ ns)) (unfold sort in insert_sorted_ne n (sort ns))
        (sort-NoneHas (n ∷ ns) h))
      (has-collect s (sort (n ∷ ns)) ∙ has-sort s (n ∷ ns))
