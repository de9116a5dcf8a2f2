-- ===== src/Http/Guard/Refusals.antt =====
-- When the guard of an endpoint lets a request pass, and what becomes of one that it stops.
use enseada.Prelude.{
  some, String, List, [], ◌∷◌, ◌≡◌, ◌↔◌, ◌⊎◌, inl, inr, true, false, arith, refl, Bool-cases,
  Option-cases, ◌==◌,
}
use enseada.Prelude.Sets.{
  has, superset-has, superset_of_has, has-collect, intersection, is_empty, collect, add,
}
use enseada.Prelude.Text.{split}
use enseada.Prelude.Exec.{ok, err, panic, Exec}
use enseada.Platform.{Platform}
use enseada.Guid
use enseada.Guid.{Guid}
use enseada.Oauth.Scope
use enseada.Oauth.Scope.{Scope}
use enseada.Rbac.Model.{check, EvaluationResult}
use enseada.Rbac.Enforcer.{Enforcer, evaluate}
use enseada.Users.Service.{User}
use enseada.Http.Errors.{ApiError, from_oauth, from_evaluation, bad_request, forbidden}
use enseada.Http.Guard.{require, authorize, authorize_exactly}

-- The scope is full, or has each name that is asked for.
abbrev pub Covers : List String → Scope → Type 0
Covers required scope =
    (has scope.names "*" ≡ true) ⊎ ((s : String) → has required s ≡ true → has scope.names s ≡ true)

-- The text is one name of a scope, and not that of the full scope.
abbrev pub IsName : String → Type 0
IsName required =
    (Scope.from required ≡ record { names = required ∷ [] }) × ((required == "*") ≡ false)

matches_exactly-Covers :
    (required : List String) (scope : Scope)
    → has required "*" ≡ false
    → (Scope.matches_exactly (Scope.from_vec required) scope ≡ ok tt) ↔ Covers required scope
unfolding Scope.matches_exactly Scope.is_full_scope Scope.is_subset Scope.from_vec
matches_exactly-Covers required scope plain = (there, back)
  where
    there : Scope.matches_exactly (Scope.from_vec required) scope ≡ ok tt → Covers required scope
    there h = elim (Bool-cases (has scope.names "*")) [
      | inl full ↦ inl full
      | inr part ↦ inr (λ s m.
          superset-has s scope.names (collect required) (ground (arith, has-collect "*" required))
            (ground (arith, has-collect s required)))
    ]

    back : Covers required scope → Scope.matches_exactly (Scope.from_vec required) scope ≡ ok tt
    back (inl full) = ground arith
    back (inr names) = ground (
      arith,
      superset_of_has scope.names (collect required)
          (λ s m. names s (ground (arith, has-collect s required))),
    )

matches_name :
    (required : String) (scope : Scope)
    → IsName required
    → ((s : Scope) × (Scope.matches (Scope.from required) scope ≡ ok s))
      ↔ (has scope.names required ≡ true)
unfolding Scope.matches Scope.is_full_scope intersection is_empty has
matches_name required scope (single, name) = (there, back)
  where
    there :
        (s : Scope) × (Scope.matches (Scope.from required) scope ≡ ok s)
        → has scope.names required ≡ true
    there (s, h) = elim (Bool-cases (has scope.names required)) [
      | inl found ↦ found
      | inr missing ↦ absurd (ground (arith, single))
    ]

    back :
        has scope.names required ≡ true
        → (s : Scope) × (Scope.matches (Scope.from required) scope ≡ ok s)
    back found = (record { names = required ∷ [] }, ground (arith, single))

-- The errors of a guard.
abbrev pub Refusal : ApiError → Type 0
Refusal x = (x ≡ bad_request "invalid scope") ⊎ (x ≡ forbidden "Access denied")

-- The operation fails with an error of the guard or panics, and the world is as before.
abbrev pub Stopped : {W A : Type 0} → Exec W ApiError A → W → Type 0
Stopped m w = ((x : ApiError) × Refusal x × (m w ≡ (err x, w))) ⊎ (m w ≡ (panic, w))

-- The names that single endpoints ask for.
pub users_read-IsName : IsName "users:read"
unfolding Scope.from collect add has split
users_read-IsName = (refl, refl)

pub users_manage-IsName : IsName "users:manage"
unfolding Scope.from collect add has split
users_manage-IsName = (refl, refl)

pub clients_read-IsName : IsName "clients:read"
unfolding Scope.from collect add has split
clients_read-IsName = (refl, refl)

pub clients_manage-IsName : IsName "clients:manage"
unfolding Scope.from collect add has split
clients_manage-IsName = (refl, refl)

pub profile-IsName : IsName "profile"
unfolding Scope.from collect add has split
profile-IsName = (refl, refl)

module _ (p : Platform) where
  -- The model that is held grants the action on the object to the user.
  abbrev pub Permits : Enforcer p → User → Guid → String → Type 0
  Permits e user object action =
      check p e.model (Guid.to_string user.id) (Guid.to_string object) action
      ≡ some EvaluationResult.granted

  evaluate-Permits :
      (e : Enforcer p) (user : User) (object : Guid) (action : String)
      → (evaluate p e user.id object action ≡ ok tt) ↔ Permits e user object action
  unfolding evaluate
  evaluate-Permits e user object action = ground (
    arith,
    Option-cases (check p e.model (Guid.to_string user.id) (Guid.to_string object) action),
  )

  pub authorize_exactly-Permits :
      (required : List String) (scope : Scope) (e : Enforcer p) (user : User) (object : Guid)
      (action : String) (w : p.World)
      → has required "*" ≡ false
      → ((authorize_exactly p required scope e user object action w).0 ≡ ok tt)
        ↔ (Covers required scope × Permits e user object action)
  unfolding authorize_exactly
  authorize_exactly-Permits required scope e user object action w plain =
      ground
        (arith, matches_exactly-Covers required scope plain, evaluate-Permits e user object action)

  pub authorize-Permits :
      (required : String) (scope : Scope) (e : Enforcer p) (user : User) (object : Guid)
      (action : String) (w : p.World)
      → IsName required
      → ((authorize p required scope e user object action w).0 ≡ ok tt)
        ↔ ((has scope.names required ≡ true) × Permits e user object action)
  unfolding authorize
  authorize-Permits required scope e user object action w name =
      ground (arith, matches_name required scope name, evaluate-Permits e user object action)

  pub authorize_exactly-Refusal :
      (required : List String) (scope : Scope) (e : Enforcer p) (user : User) (object : Guid)
      (action : String) (w : p.World) (x : ApiError)
      → (authorize_exactly p required scope e user object action w).0 ≡ err x
      → Refusal x
  unfolding authorize_exactly evaluate from_oauth from_evaluation Scope.matches_exactly
      enseada.Oauth.Error.new
  authorize_exactly-Refusal required scope e user object action w x h = ground arith

  pub authorize-Refusal :
      (required : String) (scope : Scope) (e : Enforcer p) (user : User) (object : Guid)
      (action : String) (w : p.World) (x : ApiError)
      → (authorize p required scope e user object action w).0 ≡ err x
      → Refusal x
  unfolding authorize evaluate from_oauth from_evaluation Scope.matches enseada.Oauth.Error.new
  authorize-Refusal required scope e user object action w x h = ground arith

  pub authorize_exactly_keeps :
      (required : List String) (scope : Scope) (e : Enforcer p) (user : User) (object : Guid)
      (action : String) (w : p.World)
      → (authorize_exactly p required scope e user object action w).1 ≡ w
  unfolding authorize_exactly
  authorize_exactly_keeps required scope e user object action w = ground arith

  pub authorize_keeps :
      (required : String) (scope : Scope) (e : Enforcer p) (user : User) (object : Guid)
      (action : String) (w : p.World)
      → (authorize p required scope e user object action w).1 ≡ w
  unfolding authorize
  authorize_keeps required scope e user object action w = ground arith

  pub require_of_name :
      (required : String) (scope : Scope) (w : p.World) (s : Scope)
      → IsName required
      → (require p required scope w).0 ≡ ok s
      → has scope.names required ≡ true
  require_of_name required scope w s name h = (matches_name required scope name).0 (s, ground arith)

  pub require-Refusal :
      (required : String) (scope : Scope) (w : p.World) (x : ApiError)
      → (require p required scope w).0 ≡ err x
      → Refusal x
  unfolding from_oauth Scope.matches enseada.Oauth.Error.new
  require-Refusal required scope w x h = ground arith
