-- ===== src/Rbac/Model/Decisions.antt =====
-- What `check` decides of the permissions of a principal.
use Prim.Native.String.{String}
use mathlib.Core.List.{Perm, Permᴰ}
use mathlib.Core.Logic.{∥∥₁_elim}
use enseada.Prelude.{
  Bool, true, false, none, some, List, [], ◌∷◌, ◌++◌, any, ◌≡◌, refl, sym, ap, ◌∙◌, ◌↔◌, ◌⊎◌, inl,
  inr, ◌||◌, ◌==◌, arith, Bool-cases, Option-cases, eq_iff,
}
use enseada.Prelude.Table.{lookup, values}
use enseada.Platform.{Platform}
use enseada.Rbac.Model.{
  EvaluationResult, granted, denied, Permission, Role, Principal, Model, new_permission, matches,
  same, visit_permissions, visit_role, visit_roles, visit_principal, check,
}

module _ {ℓ} {A : Type ℓ} where
  any-append : (f : A → Bool) (xs ys : List A) → any f (xs ++ ys) ≡ (any f xs || any f ys)
  any-append f [] ys = refl
  any-append f (x ∷ xs) ys = ground (arith, any-append f xs ys)

  any-or : (f g : A → Bool) (xs : List A) → any (λ a. f a || g a) xs ≡ (any f xs || any g xs)
  any-or f g [] = refl
  any-or f g (x ∷ xs) = ground (arith, any-or f g xs)

  any-permᴰ : (f : A → Bool) {xs ys : List A} → Permᴰ xs ys → any f xs ≡ any f ys
  any-permᴰ f Permᴰ.nil = refl
  any-permᴰ f (Permᴰ.cons {a = a} {b = b} e r) = cc (ap f e, any-permᴰ f r)
  any-permᴰ f (Permᴰ.swap {a = a} {b = b} {a' = c} {b' = d} {l = l} e k) =
      ground (arith, ap f e, ap f k)
  any-permᴰ f (Permᴰ.trans r q) = any-permᴰ f r ∙ any-permᴰ f q

  any-perm : (f : A → Bool) {xs ys : List A} → Perm xs ys → any f xs ≡ any f ys
  any-perm f {xs} {ys} r = ∥∥₁_elim r (hlevel) (any-permᴰ f)

abbrev verdict : Bool → EvaluationResult
verdict true = granted
verdict false = denied

module _ (p : Platform) where
  -- A permission grants a target if it is the same or matches it.
  abbrev pub grants : Permission p → Permission p → Bool
  grants target a = same p a target || matches p a target

  abbrev pub role_permissions : List (Role p) → List (Permission p)
  role_permissions [] = []
  role_permissions (r ∷ rest) = values r.permissions ++ role_permissions rest

  -- The principal's own permissions and those of its roles.
  abbrev pub all_permissions : Principal p → List (Permission p)
  all_permissions pr = values pr.permissions ++ role_permissions (values pr.roles)

  visit_permissions_lem :
      (l : List (Permission p)) (t : Permission p)
      → visit_permissions p l t ≡ verdict (any (λ a. matches p a t) l)
  unfolding visit_permissions
  visit_permissions_lem [] t = refl
  visit_permissions_lem (a ∷ l) t = ground (arith, visit_permissions_lem l t)

  visit_role_lem :
      (r : Role p) (t : Permission p)
      → visit_role p r t ≡ verdict (any (grants t) (values r.permissions))
  unfolding visit_role
  visit_role_lem r t = ground (
    arith,
    visit_permissions_lem (values r.permissions) t,
    any-or (λ a. same p a t) (λ a. matches p a t) (values r.permissions),
  )

  visit_roles_lem :
      (l : List (Role p)) (t : Permission p)
      → visit_roles p l t ≡ verdict (any (grants t) (role_permissions l))
  unfolding visit_roles
  visit_roles_lem [] t = refl
  visit_roles_lem (r ∷ l) t = ground (
    arith,
    visit_role_lem r t,
    visit_roles_lem l t,
    any-append (grants t) (values r.permissions) (role_permissions l),
  )

  -- Visiting a principal grants exactly if one of its permissions does, its own or a role's.
  visit_principal_lem :
      (pr : Principal p) (t : Permission p)
      → visit_principal p pr t ≡ verdict (any (grants t) (all_permissions pr))
  unfolding visit_principal
  visit_principal_lem pr t = ground (
    arith,
    visit_permissions_lem (values pr.permissions) t,
    visit_roles_lem (values pr.roles) t,
    any-or (λ a. same p a t) (λ a. matches p a t) (values pr.permissions),
    any-append (grants t) (values pr.permissions) (role_permissions (values pr.roles)),
  )

  -- Two principals with the same permissions in any order, their own or through roles, get the
  -- same answer to every target.
  pub visit_principal-perm :
      (a b : Principal p) (t : Permission p)
      → Perm (all_permissions a) (all_permissions b)
      → visit_principal p a t ≡ visit_principal p b t
  visit_principal-perm a b t same_permissions =
      visit_principal_lem a t
      ∙ ap verdict (any-perm (grants t) same_permissions)
      ∙ sym (visit_principal_lem b t)

  -- How a request comes to be granted: it is root's, or a principal of that name has a permission,
  -- its own or a role's, that grants the target.
  pub data Granted (m : Model p) (name object action : String) : Type 0 where
    root : name ≡ "user:root" → Granted m name object action
    permitted :
        (pr : Principal p) (target : Permission p)
        → lookup name m.principals ≡ some pr
        → new_permission p object action ≡ some target
        → any (grants target) (all_permissions pr) ≡ true
        → Granted m name object action

  granted_of_verdict : (b : Bool) → verdict b ≡ granted → b ≡ true
  granted_of_verdict b h = ground arith

  check_sound :
      (m : Model p) (name object action : String)
      → check p m name object action ≡ some granted
      → Granted m name object action
  unfolding check
  check_sound m name object action h = elim (Bool-cases (name == "user:root")) [
    | inl e ↦ root ((eq_iff name "user:root").0 e)
    | inr other ↦ elim (Option-cases (new_permission p object action)) [
      | inl bad ↦ absurd (ground arith)
      | inr (target, made) ↦ elim (Option-cases (lookup name m.principals)) [
        | inl missing ↦ absurd (ground arith)
        | inr (pr, found) ↦
            permitted pr target found made
              (granted_of_verdict _ (sym (visit_principal_lem pr target) ∙ ground arith))
      ]
    ]
  ]

  -- `check` grants exactly the requests of `Granted`.
  pub check_iff :
      (m : Model p) (name object action : String)
      → (check p m name object action ≡ some granted) ↔ Granted m name object action
  unfolding check
  check_iff m name object action = (check_sound m name object action, back)
    where
      back : Granted m name object action → check p m name object action ≡ some granted
      back (root e) = ground (arith, (eq_iff name "user:root").1 e)
      back (permitted pr target found made any_grants) =
          ground (arith, visit_principal_lem pr target, any_grants)

  -- `check` panics exactly where the requester is not root and the object or the action is no
  -- glob pattern, whether or not the requester is known.
  pub check_panics :
      (m : Model p) (name object action : String)
      → (check p m name object action ≡ none) ↔ (
          ((name == "user:root") ≡ false)
          × ((p.parse_pattern object ≡ none) ⊎ (p.parse_pattern action ≡ none)))
  unfolding check new_permission
  check_panics m name object action = ground arith
