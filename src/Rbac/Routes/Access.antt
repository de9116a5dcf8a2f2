-- ===== src/Rbac/Routes/Access.antt =====
-- Who gets an answer of the endpoints of roles and permissions.
use enseada.Prelude.{String, append, false, List, [], ◌∷◌, ◌≡◌, ◌⊎◌, inl, inr, arith, refl}
use enseada.Prelude.Sets.{has}
use enseada.Prelude.Exec.{Outcome-cases, Exec, err, panic}
use enseada.Platform.{Platform}
use enseada.Guid.{Guid, partitioned}
use enseada.Couch.Database.{Database}
use enseada.Oauth.Scope.{Scope}
use enseada.Rbac.Enforcer
use enseada.Rbac.Enforcer.{Enforcer}
use enseada.Rbac.Routes.{
  Request, list_roles, assign, unassign, list_user, grant_user, withdraw_user, list_role,
  grant_role, withdraw_role, get_user_roles, add_user_role, remove_user_role, get_user_permissions,
  add_user_permission, remove_user_permission, get_role_permissions, add_role_permission,
  remove_role_permission, serve,
}
use enseada.Users.Repository
use enseada.Users.Service.{User, as_entity}
use enseada.Http.Errors.{ApiError}
use enseada.Http.Guard.{authorize_exactly}
use enseada.Http.Guard.Refusals.{
  Covers, Permits, Stopped, authorize_exactly-Permits, authorize_exactly-Refusal,
  authorize_exactly_keeps,
}

-- What a request needs: the names of a scope, the object and the action of a permission.
pub record Need : Type 0 where
  pub names : List String
  pub object : Guid
  pub action : String

abbrev of_user : String → String → String → String → Need
of_user access over username action = record {
  names = access ∷ over ∷ [];
  object = partitioned "user" username;
  action = append action over;
}

abbrev of_role : String → String → Need
of_role role action = record {
  names = "roles" ∷ "permissions" ∷ [];
  object = partitioned "role" role;
  action = action;
}

-- To change the permissions of a user asks for no more of the token than to read them.
abbrev pub need : Request → Need
need (list_roles username query) = of_user "users:read" "roles" username "read_"
need (assign username role) = of_user "users:manage" "roles" username "manage_"
need (unassign username role) = of_user "users:manage" "roles" username "manage_"
need (list_user username query) = of_user "users:read" "permissions" username "read_"
need (grant_user username body) = of_user "users:read" "permissions" username "manage_"
need (withdraw_user username body) = of_user "users:read" "permissions" username "manage_"
need (list_role role query) = of_role role "read_permissions"
need (grant_role role body) = of_role role "manage_permissions"
need (withdraw_role role body) = of_role role "manage_permissions"

module _ (p : Platform) (c : Enforcer.Codecs p) (users : Repository.Codecs p as_entity)
    (db : Database) (e : Enforcer p) (scope : Scope) (current : User) where
  open p use {World}

  abbrev guard : Request → Exec World ApiError (Unit {0})
  guard r = authorize_exactly p (need r).names scope e current (need r).object (need r).action

  -- The token's scope and the current user's permissions cover the need.
  abbrev pub Authorized : Request → Type 0
  Authorized r = Covers (need r).names scope × Permits p e current (need r).object (need r).action

  plain : (r : Request) → has (need r).names "*" ≡ false
  unfolding has
  plain (list_roles username query) = refl
  plain (assign username role) = refl
  plain (unassign username role) = refl
  plain (list_user username query) = refl
  plain (grant_user username body) = refl
  plain (withdraw_user username body) = refl
  plain (list_role role query) = refl
  plain (grant_role role body) = refl
  plain (withdraw_role role body) = refl

  guard_keeps : (r : Request) (w : World) → (guard r w).1 ≡ w
  guard_keeps r w =
      authorize_exactly_keeps p (need r).names scope e current (need r).object (need r).action w

  -- Each endpoint stops where its guard does.
  serve_of_err :
      (r : Request) (x : ApiError) (w : World)
      → (guard r w).0 ≡ err x
      → serve p c users db e scope current r w ≡ (err x, w)
  unfolding serve get_user_roles add_user_role remove_user_role get_user_permissions
      add_user_permission remove_user_permission get_role_permissions add_role_permission
      remove_role_permission
  serve_of_err (list_roles username query) x w h =
      ground (arith, guard_keeps (list_roles username query) w)
  serve_of_err (assign username role) x w h = ground (arith, guard_keeps (assign username role) w)
  serve_of_err (unassign username role) x w h =
      ground (arith, guard_keeps (unassign username role) w)
  serve_of_err (list_user username query) x w h =
      ground (arith, guard_keeps (list_user username query) w)
  serve_of_err (grant_user username body) x w h =
      ground (arith, guard_keeps (grant_user username body) w)
  serve_of_err (withdraw_user username body) x w h =
      ground (arith, guard_keeps (withdraw_user username body) w)
  serve_of_err (list_role role query) x w h = ground (arith, guard_keeps (list_role role query) w)
  serve_of_err (grant_role role body) x w h = ground (arith, guard_keeps (grant_role role body) w)
  serve_of_err (withdraw_role role body) x w h =
      ground (arith, guard_keeps (withdraw_role role body) w)

  serve_of_panic :
      (r : Request) (w : World)
      → (guard r w).0 ≡ panic
      → serve p c users db e scope current r w ≡ (panic, w)
  unfolding serve get_user_roles add_user_role remove_user_role get_user_permissions
      add_user_permission remove_user_permission get_role_permissions add_role_permission
      remove_role_permission
  serve_of_panic (list_roles username query) w h =
      ground (arith, guard_keeps (list_roles username query) w)
  serve_of_panic (assign username role) w h = ground (arith, guard_keeps (assign username role) w)
  serve_of_panic (unassign username role) w h =
      ground (arith, guard_keeps (unassign username role) w)
  serve_of_panic (list_user username query) w h =
      ground (arith, guard_keeps (list_user username query) w)
  serve_of_panic (grant_user username body) w h =
      ground (arith, guard_keeps (grant_user username body) w)
  serve_of_panic (withdraw_user username body) w h =
      ground (arith, guard_keeps (withdraw_user username body) w)
  serve_of_panic (list_role role query) w h = ground (arith, guard_keeps (list_role role query) w)
  serve_of_panic (grant_role role body) w h = ground (arith, guard_keeps (grant_role role body) w)
  serve_of_panic (withdraw_role role body) w h =
      ground (arith, guard_keeps (withdraw_role role body) w)

  -- Each request that is served at all, with an answer or a change of the world, has a token whose
  -- scope covers the request, and a user to whom the model grants it: any other one is
  -- refused with one of the two errors of the guard, or panics, and leaves the world as it was.
  pub access_request-Authorized :
      (r : Request) (w : World) → Authorized r ⊎ Stopped (serve p c users db e scope current r) w
  access_request-Authorized r w = elim (Outcome-cases (guard r w).0) [
    | inl (_, h) ↦ inl (
        (authorize_exactly-Permits p (need r).names scope e current (need r).object (need r).action
            w (plain r)).0
          h)
    | inr (inl (x, h)) ↦ inr (
        inl (
          x,
          authorize_exactly-Refusal p (need r).names scope e current (need r).object (need r).action
              w x h,
          serve_of_err r x w h,
        ))
    | inr (inr h) ↦ inr (inr (serve_of_panic r w h))
  ]
