-- ===== src/Oauth/Api/Access.antt =====
-- Who gets an answer of the endpoints of clients.
use enseada.Prelude.{true, ◌≡◌, ◌⊎◌, inl, inr, arith}
use enseada.Prelude.Sets.{has}
use enseada.Prelude.Exec.{Outcome-cases, Exec, ok, err, panic}
use enseada.Platform.{Platform}
use enseada.Guid.{simple}
use enseada.Couch.Database.{Database}
use enseada.Oauth.Scope.{Scope}
use enseada.Oauth.Persistence
use enseada.Oauth.Persistence.Entities.{client_guid}
use enseada.Oauth.Api.{
  Request, list_all, create, get_one, update, delete_one, list_clients, create_client, get_client,
  update_client, delete_client, serve,
}
use enseada.Rbac.Enforcer.{Enforcer}
use enseada.Users.Service.{User}
use enseada.Http.Errors.{ApiError}
use enseada.Http.Guard.{authorize}
use enseada.Http.Guard.Refusals.{
  Permits, Refusal, Stopped, authorize-Permits, authorize-Refusal, authorize_keeps,
  clients_read-IsName, clients_manage-IsName,
}

module _ (p : Platform) (c : Persistence.Codecs p) (db : Database) (e : Enforcer p) (scope : Scope)
    (current : User) where
  open p use {World}

  abbrev guard : Request p → Exec World ApiError (Unit {0})
  guard (list_all query) = authorize p "clients:read" scope e current (simple "clients") "read"
  guard (create body) = authorize p "clients:manage" scope e current (simple "clients") "create"
  guard (get_one id) = authorize p "clients:read" scope e current (client_guid id) "read"
  guard (update id body) = authorize p "clients:manage" scope e current (simple "clients") "update"
  guard (delete_one id) = authorize p "clients:manage" scope e current (client_guid id) "delete"

  -- What a request asks of the token's scope, and of the permissions of the current user.
  abbrev pub Authorized : Request p → Type 0
  Authorized (list_all query) =
      (has scope.names "clients:read" ≡ true) × Permits p e current (simple "clients") "read"
  Authorized (create body) =
      (has scope.names "clients:manage" ≡ true) × Permits p e current (simple "clients") "create"
  Authorized (get_one id) =
      (has scope.names "clients:read" ≡ true) × Permits p e current (client_guid id) "read"
  Authorized (update id body) =
      (has scope.names "clients:manage" ≡ true) × Permits p e current (simple "clients") "update"
  Authorized (delete_one id) =
      (has scope.names "clients:manage" ≡ true) × Permits p e current (client_guid id) "delete"

  guard_keeps : (r : Request p) (w : World) → (guard r w).1 ≡ w
  guard_keeps (list_all query) w =
      authorize_keeps p "clients:read" scope e current (simple "clients") "read" w
  guard_keeps (create body) w =
      authorize_keeps p "clients:manage" scope e current (simple "clients") "create" w
  guard_keeps (get_one id) w =
      authorize_keeps p "clients:read" scope e current (client_guid id) "read" w
  guard_keeps (update id body) w =
      authorize_keeps p "clients:manage" scope e current (simple "clients") "update" w
  guard_keeps (delete_one id) w =
      authorize_keeps p "clients:manage" scope e current (client_guid id) "delete" w

  guard-Authorized : (r : Request p) (w : World) → (guard r w).0 ≡ ok tt → Authorized r
  guard-Authorized (list_all query) w h =
      (authorize-Permits p "clients:read" scope e current (simple "clients") "read" w
          clients_read-IsName).0
        h
  guard-Authorized (create body) w h =
      (authorize-Permits p "clients:manage" scope e current (simple "clients") "create" w
          clients_manage-IsName).0
        h
  guard-Authorized (get_one id) w h =
      (authorize-Permits p "clients:read" scope e current (client_guid id) "read" w
          clients_read-IsName).0
        h
  guard-Authorized (update id body) w h =
      (authorize-Permits p "clients:manage" scope e current (simple "clients") "update" w
          clients_manage-IsName).0
        h
  guard-Authorized (delete_one id) w h =
      (authorize-Permits p "clients:manage" scope e current (client_guid id) "delete" w
          clients_manage-IsName).0
        h

  guard-Refusal : (r : Request p) (w : World) (x : ApiError) → (guard r w).0 ≡ err x → Refusal x
  guard-Refusal (list_all query) w x h =
      authorize-Refusal p "clients:read" scope e current (simple "clients") "read" w x h
  guard-Refusal (create body) w x h =
      authorize-Refusal p "clients:manage" scope e current (simple "clients") "create" w x h
  guard-Refusal (get_one id) w x h =
      authorize-Refusal p "clients:read" scope e current (client_guid id) "read" w x h
  guard-Refusal (update id body) w x h =
      authorize-Refusal p "clients:manage" scope e current (simple "clients") "update" w x h
  guard-Refusal (delete_one id) w x h =
      authorize-Refusal p "clients:manage" scope e current (client_guid id) "delete" w x h

  -- Each endpoint stops where its guard does.
  serve_of_err :
      (r : Request p) (x : ApiError) (w : World)
      → (guard r w).0 ≡ err x
      → serve p c db e scope current r w ≡ (err x, w)
  unfolding serve list_clients create_client get_client update_client delete_client
  serve_of_err (list_all query) x w h = ground (arith, guard_keeps (list_all query) w)
  serve_of_err (create body) x w h = ground (arith, guard_keeps (create body) w)
  serve_of_err (get_one id) x w h = ground (arith, guard_keeps (get_one id) w)
  serve_of_err (update id body) x w h = ground (arith, guard_keeps (update id body) w)
  serve_of_err (delete_one id) x w h = ground (arith, guard_keeps (delete_one id) w)

  serve_of_panic :
      (r : Request p) (w : World)
      → (guard r w).0 ≡ panic
      → serve p c db e scope current r w ≡ (panic, w)
  unfolding serve list_clients create_client get_client update_client delete_client
  serve_of_panic (list_all query) w h = ground (arith, guard_keeps (list_all query) w)
  serve_of_panic (create body) w h = ground (arith, guard_keeps (create body) w)
  serve_of_panic (get_one id) w h = ground (arith, guard_keeps (get_one id) w)
  serve_of_panic (update id body) w h = ground (arith, guard_keeps (update id body) w)
  serve_of_panic (delete_one id) w h = ground (arith, guard_keeps (delete_one id) w)

  -- Each request of an endpoint of clients is authorized, by a name of the token's scope and a
  -- permission of the current user; or it is refused with one of the two errors of the guard, or
  -- panics, and leaves the world as it was.
  pub client_request-Authorized :
      (r : Request p) (w : World) → Authorized r ⊎ Stopped (serve p c db e scope current r) w
  client_request-Authorized r w = elim (Outcome-cases (guard r w).0) [
    | inl (_, h) ↦ inl (guard-Authorized r w h)
    | inr (inl (x, h)) ↦ inr (inl (x, guard-Refusal r w x h, serve_of_err r x w h))
    | inr (inr h) ↦ inr (inr (serve_of_panic r w h))
  ]
