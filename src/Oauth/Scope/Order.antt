-- ===== src/Oauth/Scope/Order.antt =====
-- What the comparisons of scopes mean, name by name.
use enseada.Prelude.{
  String, ◌≡◌, ◌↔◌, ◌⊎◌, inl, inr, true, false, arith, Bool-cases, [], ◌∷◌, ◌&&◌, sym, ◌∙◌, eq_iff,
}
use enseada.Prelude.Sets.{
  has, intersection, superset, is_empty, superset-has, superset_of_has, has-intersection,
  not-has_of_is_empty, is_empty_of_not-has,
}
use enseada.Prelude.Exec.{ok, err}
use enseada.Oauth.Scope.{
  Scope, refused, is_full_scope, is_superset, is_subset, matches, matches_exactly,
}

-- A scope admits a name if it has it, or is full.
abbrev pub Admits : Scope → String → Type 0
Admits s name = (is_full_scope s ≡ true) ⊎ (has s.names name ≡ true)

-- A scope is a superset of another exactly when it is full or has each name of the other.
pub is_superset_iff :
    (a b : Scope)
    → (is_superset a b ≡ true)
      ↔ ((is_full_scope a ≡ true) ⊎ ((s : String) → has b.names s ≡ true → has a.names s ≡ true))
unfolding is_superset
is_superset_iff a b = (there, back)
  where
    there :
        is_superset a b ≡ true
        → (is_full_scope a ≡ true) ⊎ ((s : String) → has b.names s ≡ true → has a.names s ≡ true)
    there h = elim (Bool-cases (is_full_scope a)) [
      | inl full ↦ inl full
      | inr part ↦ inr (λ s. superset-has s a.names b.names (ground arith))
    ]

    back :
        (is_full_scope a ≡ true) ⊎ ((s : String) → has b.names s ≡ true → has a.names s ≡ true)
        → is_superset a b ≡ true
    back (inl full) = ground arith
    back (inr names) = ground (arith, superset_of_has a.names b.names names)

-- What a superset of a superset admits covers the smallest scope: being a superset is transitive.
pub is_superset_trans :
    (a b c : Scope) → is_superset a b ≡ true → is_superset b c ≡ true → is_superset a c ≡ true
is_superset_trans a b c h k = go ((is_superset_iff a b).0 h) ((is_superset_iff b c).0 k)
  where
    go :
        (is_full_scope a ≡ true) ⊎ ((s : String) → has b.names s ≡ true → has a.names s ≡ true)
        → (is_full_scope b ≡ true) ⊎ ((s : String) → has c.names s ≡ true → has b.names s ≡ true)
        → is_superset a c ≡ true
    go (inl full) r = (is_superset_iff a c).1 (inl full)
    go (inr ab) (inl full) = (is_superset_iff a c).1 (inl (unfold is_full_scope in ab "*" full))
    go (inr ab) (inr bc) = (is_superset_iff a c).1 (inr (λ s m. ab s (bc s m)))

-- What `matches` grants is the other scope, if the first is full, and otherwise a scope with
-- exactly the names that both have, of which there is one at least.
pub matches_grants :
    (a b c : Scope) (s : String)
    → matches a b ≡ ok c
    → ((is_full_scope a ≡ true) × (c ≡ b))
      ⊎ ((is_full_scope a ≡ false)
          × (has c.names s ≡ (has a.names s && has b.names s))
          × (is_empty c.names ≡ false))
unfolding matches
matches_grants a b c s h = ground (arith, has-intersection s a.names b.names)

-- `matches` refuses exactly where the first scope is not full and no name is in both.
pub matches_refuses :
    (a b : Scope)
    → (matches a b ≡ err refused)
      ↔ ((is_full_scope a ≡ false) × ((s : String) → (has a.names s && has b.names s) ≡ false))
unfolding matches
matches_refuses a b = (λ h. (ground arith, there h), back)
  where
    there : matches a b ≡ err refused → (s : String) → (has a.names s && has b.names s) ≡ false
    there h s = sym (has-intersection s a.names b.names) ∙ not-has_of_is_empty s _ (ground arith)

    back :
        (is_full_scope a ≡ false) × ((s : String) → (has a.names s && has b.names s) ≡ false)
        → matches a b ≡ err refused
    back (part, none_common) =
        let nothing : is_empty (intersection a.names b.names) ≡ true =
          is_empty_of_not-has _ (λ s. has-intersection s a.names b.names ∙ none_common s) in
        ground arith

-- `matches_exactly` succeeds exactly when the first scope is full or the second is a superset.
pub matches_exactly_iff :
    (a b : Scope)
    → (matches_exactly a b ≡ ok tt) ↔ ((is_full_scope a ≡ true) ⊎ (is_superset b a ≡ true))
unfolding matches_exactly is_superset
matches_exactly_iff a b = ground arith

-- A required scope that is not full, held against the full scope `*` alone: `matches_exactly`
-- accepts, and `matches` refuses.
pub full_token_refused :
    (required : Scope)
    → is_full_scope required ≡ false
    → let full : Scope = record { names = "*" ∷ [] } in
      (matches_exactly required full ≡ ok tt) × (matches required full ≡ err refused)
unfolding matches_exactly is_subset is_full_scope superset has
full_token_refused required h =
    (ground arith, (matches_refuses required _).1 (h, λ s. ground (arith, eq_iff "*" s)))
