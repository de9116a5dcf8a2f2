-- ===== src/Users/Routes/Access.antt =====
-- Who gets an answer of the endpoints of users.
use enseada.Prelude.{true, ◌≡◌, ◌⊎◌, inl, inr, arith}
use enseada.Prelude.Sets.{has}
use enseada.Prelude.Exec.{Outcome-cases, Exec, ok, err, panic, pure, ◌>>◌}
use enseada.Platform.{Platform}
use enseada.Guid.{simple}
use enseada.Couch.Database.{Database}
use enseada.Oauth.Scope.{Scope}
use enseada.Rbac.Enforcer
use enseada.Rbac.Enforcer.{Enforcer}
use enseada.Users.Repository
use enseada.Users.Service.{User, as_entity, user_guid}
use enseada.Users.Routes.{
  Request, list_users, get_user, delete_user, show_me, register_user, list, get, delete, me,
  register, serve,
}
use enseada.Http.Errors.{ApiError}
use enseada.Http.Guard.{require, authorize}
use enseada.Http.Guard.Refusals.{
  Permits, Refusal, Stopped, authorize-Permits, authorize-Refusal, authorize_keeps, require_of_name,
  require-Refusal, users_read-IsName, users_manage-IsName, profile-IsName,
}

module _ (p : Platform) (c : Enforcer.Codecs p) (users : Repository.Codecs p as_entity)
    (db : Database) (e : Enforcer p) (scope : Scope) (current : User) where
  open p use {World}

  abbrev guard : Request → Exec World ApiError (Unit {0})
  guard (list_users query) = authorize p "users:read" scope e current (simple "users") "read"
  guard (get_user username) = authorize p "users:read" scope e current (user_guid username) "read"
  guard (delete_user username) =
      authorize p "users:manage" scope e current (user_guid username) "delete"
  guard show_me = require p "profile" scope >> pure tt
  guard (register_user registration) =
      authorize p "users:manage" scope e current (simple "users") "create"

  -- What a request asks of the token's scope, and of the permissions of the current user.
  abbrev pub Authorized : Request → Type 0
  Authorized (list_users query) =
      (has scope.names "users:read" ≡ true) × Permits p e current (simple "users") "read"
  Authorized (get_user username) =
      (has scope.names "users:read" ≡ true) × Permits p e current (user_guid username) "read"
  Authorized (delete_user username) =
      (has scope.names "users:manage" ≡ true) × Permits p e current (user_guid username) "delete"
  Authorized show_me = has scope.names "profile" ≡ true
  Authorized (register_user registration) =
      (has scope.names "users:manage" ≡ true) × Permits p e current (simple "users") "create"

  guard_keeps : (r : Request) (w : World) → (guard r w).1 ≡ w
  guard_keeps (list_users query) w =
      authorize_keeps p "users:read" scope e current (simple "users") "read" w
  guard_keeps (get_user username) w =
      authorize_keeps p "users:read" scope e current (user_guid username) "read" w
  guard_keeps (delete_user username) w =
      authorize_keeps p "users:manage" scope e current (user_guid username) "delete" w
  guard_keeps show_me w = ground arith
  guard_keeps (register_user registration) w =
      authorize_keeps p "users:manage" scope e current (simple "users") "create" w

  guard-Authorized : (r : Request) (w : World) → (guard r w).0 ≡ ok tt → Authorized r
  guard-Authorized (list_users query) w h =
      (authorize-Permits p "users:read" scope e current (simple "users") "read" w
          users_read-IsName).0
        h
  guard-Authorized (get_user username) w h =
      (authorize-Permits p "users:read" scope e current (user_guid username) "read" w
          users_read-IsName).0
        h
  guard-Authorized (delete_user username) w h =
      (authorize-Permits p "users:manage" scope e current (user_guid username) "delete" w
          users_manage-IsName).0
        h
  guard-Authorized show_me w h = elim (Outcome-cases (require p "profile" scope w).0) [
    | inl (s, passed) ↦ require_of_name p "profile" scope w s profile-IsName passed
    | inr (inl (x, stopped)) ↦ absurd (ground arith)
    | inr (inr panics) ↦ absurd (ground arith)
  ]
  guard-Authorized (register_user registration) w h =
      (authorize-Permits p "users:manage" scope e current (simple "users") "create" w
          users_manage-IsName).0
        h

  guard-Refusal : (r : Request) (w : World) (x : ApiError) → (guard r w).0 ≡ err x → Refusal x
  guard-Refusal (list_users query) w x h =
      authorize-Refusal p "users:read" scope e current (simple "users") "read" w x h
  guard-Refusal (get_user username) w x h =
      authorize-Refusal p "users:read" scope e current (user_guid username) "read" w x h
  guard-Refusal (delete_user username) w x h =
      authorize-Refusal p "users:manage" scope e current (user_guid username) "delete" w x h
  guard-Refusal show_me w x h = require-Refusal p "profile" scope w x (ground arith)
  guard-Refusal (register_user registration) w x h =
      authorize-Refusal p "users:manage" scope e current (simple "users") "create" w x h

  -- Each endpoint stops where its guard does.
  serve_of_err :
      (r : Request) (x : ApiError) (w : World)
      → (guard r w).0 ≡ err x
      → serve p c users db e scope current r w ≡ (err x, w)
  unfolding serve list get delete me register
  serve_of_err (list_users query) x w h = ground (arith, guard_keeps (list_users query) w)
  serve_of_err (get_user username) x w h = ground (arith, guard_keeps (get_user username) w)
  serve_of_err (delete_user username) x w h = ground (arith, guard_keeps (delete_user username) w)
  serve_of_err show_me x w h = ground arith
  serve_of_err (register_user registration) x w h =
      ground (arith, guard_keeps (register_user registration) w)

  serve_of_panic :
      (r : Request) (w : World)
      → (guard r w).0 ≡ panic
      → serve p c users db e scope current r w ≡ (panic, w)
  unfolding serve list get delete me register
  serve_of_panic (list_users query) w h = ground (arith, guard_keeps (list_users query) w)
  serve_of_panic (get_user username) w h = ground (arith, guard_keeps (get_user username) w)
  serve_of_panic (delete_user username) w h = ground (arith, guard_keeps (delete_user username) w)
  serve_of_panic show_me w h = ground arith
  serve_of_panic (register_user registration) w h =
      ground (arith, guard_keeps (register_user registration) w)

  -- Each request of an endpoint of users is authorized, by a name of the token's scope and, but for
  -- the request for the current user, by a permission of that user; or it is refused with one of
  -- the two errors of the guard, or panics, and leaves the world as it was.
  pub user_request-Authorized :
      (r : Request) (w : World) → Authorized r ⊎ Stopped (serve p c users db e scope current r) w
  user_request-Authorized r w = elim (Outcome-cases (guard r w).0) [
    | inl (_, h) ↦ inl (guard-Authorized r w h)
    | inr (inl (x, h)) ↦ inr (inl (x, guard-Refusal r w x h, serve_of_err r x w h))
    | inr (inr h) ↦ inr (inr (serve_of_panic r w h))
  ]
