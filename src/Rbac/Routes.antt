-- ===== src/Rbac/Routes.antt =====
-- server/src/rbac/routes.rs: the endpoints of roles and permissions, as functions of the token's scope,
-- the current user and the parsed request.
pub mod Access
use enseada.Prelude.{String, append, Option, none, some, List, [], ◌∷◌}
use enseada.Prelude.Exec.{Exec, pure, ok_or, map_err, ◌>>=◌, ◌>>◌}
use enseada.Platform.{Platform}
use enseada.Guid.{Guid, partitioned}
use enseada.Couch.Database.{Database}
use enseada.Pagination.{Page, map_page}
use enseada.Oauth.Scope.{Scope}
use enseada.Rbac.Rule.{Rule}
use enseada.Rbac.Enforcer
use enseada.Rbac.Enforcer.{Enforcer}
use enseada.Users.Repository
use enseada.Users.Repository.{find}
use enseada.Users.Service.{User, as_entity}
use enseada.Http.Errors.{ApiError, not_found, from_library, from_couch}
use enseada.Http.Query.{PaginationQuery, limit, read_cursor}
use enseada.Http.Guard.{authorize_exactly}

pub record RoleResponse : Type 0 where
  pub role : String

-- The body of the requests and of the answers.
pub record Permission : Type 0 where
  pub subject : Option Guid
  pub object : Guid
  pub action : String

-- `From<&Rule> for Permission`
unfoldable pub from_rule : Rule → Permission
from_rule rule = record { subject = some rule.sub; object = rule.obj; action = rule.act }

-- permission.subject = Some(sub)
unfoldable pub with_subject : Guid → Permission → Permission
with_subject sub permission = record permission { subject = some sub }

abbrev pub user_missing : String → ApiError
user_missing username = not_found (append "User " (append username " not found"))

-- What `mount` registers, with the parameters of the path, the query and the body.
pub data Request : Type 0 where
  list_roles : String → PaginationQuery → Request
  assign : String → String → Request
  unassign : String → String → Request
  list_user : String → PaginationQuery → Request
  grant_user : String → Permission → Request
  withdraw_user : String → Permission → Request
  list_role : String → PaginationQuery → Request
  grant_role : String → Permission → Request
  withdraw_role : String → Permission → Request

pub data Response : Type 0 where
  role_page : Page String → Response
  one_role : RoleResponse → Response
  permission_page : Page Permission → Response
  one_permission : Permission → Response

module _ (p : Platform) (c : Enforcer.Codecs p) (users : Repository.Codecs p as_entity)
    (db : Database) (e : Enforcer p) (scope : Scope) (current : User) where
  open p use {World}

  -- service.find(username).await?, which has to find the user
  abbrev existing : String → Exec World ApiError User
  existing username = do
    found ← map_err from_couch (find p as_entity users db username)
    ok_or (user_missing username) found

  unfoldable pub get_user_roles : String → PaginationQuery → Exec World ApiError (Page String)
  get_user_roles username query = do
    authorize_exactly p ("users:read" ∷ "roles" ∷ []) scope e current (partitioned "user" username)
        "read_roles"
    existing username
    cursor ← read_cursor p query.cursor
    map_err from_library
        (Enforcer.list_principal_roles p c e (partitioned "user" username) (limit query) cursor)

  unfoldable pub add_user_role : String → String → Exec World ApiError RoleResponse
  add_user_role username role = do
    authorize_exactly p ("users:manage" ∷ "roles" ∷ []) scope e current
        (partitioned "user" username) "manage_roles"
    existing username
    map_err from_library (Enforcer.add_role_to_principal p c e (partitioned "user" username) role)
    pure (record { role = role })

  unfoldable pub remove_user_role : String → String → Exec World ApiError RoleResponse
  remove_user_role username role = do
    authorize_exactly p ("users:manage" ∷ "roles" ∷ []) scope e current
        (partitioned "user" username) "manage_roles"
    existing username
    map_err from_library
        (Enforcer.remove_role_from_principal p c e (partitioned "user" username) role)
    pure (record { role = role })

  -- The lists of permissions, of users and of roles alike, behind their guards.
  abbrev page_of : Guid → PaginationQuery → Exec World ApiError (Page Permission)
  page_of sub query = do
    cursor ← read_cursor p query.cursor
    page ← map_err from_library (Enforcer.list_principal_permissions p c e sub (limit query) cursor)
    pure (map_page from_rule page)

  abbrev put_rule : Guid → Permission → Exec World ApiError Permission
  put_rule sub permission = do
    map_err from_library (Enforcer.grant p c e sub permission.object permission.action)
    pure (with_subject sub permission)

  abbrev drop_rule : Guid → Permission → Exec World ApiError Permission
  drop_rule sub permission = do
    map_err from_library (Enforcer.withdraw p c e sub permission.object permission.action)
    pure (with_subject sub permission)

  unfoldable pub get_user_permissions :
      String → PaginationQuery → Exec World ApiError (Page Permission)
  get_user_permissions username query = do
    let sub = partitioned "user" username
    authorize_exactly p ("users:read" ∷ "permissions" ∷ []) scope e current sub "read_permissions"
    page_of sub query

  unfoldable pub add_user_permission : String → Permission → Exec World ApiError Permission
  add_user_permission username permission = do
    let sub = partitioned "user" username
    authorize_exactly p ("users:read" ∷ "permissions" ∷ []) scope e current sub "manage_permissions"
    put_rule sub permission

  unfoldable pub remove_user_permission : String → Permission → Exec World ApiError Permission
  remove_user_permission username permission = do
    let sub = partitioned "user" username
    authorize_exactly p ("users:read" ∷ "permissions" ∷ []) scope e current sub "manage_permissions"
    drop_rule sub permission

  unfoldable pub get_role_permissions :
      String → PaginationQuery → Exec World ApiError (Page Permission)
  get_role_permissions role query = do
    let sub = partitioned "role" role
    authorize_exactly p ("roles" ∷ "permissions" ∷ []) scope e current sub "read_permissions"
    page_of sub query

  unfoldable pub add_role_permission : String → Permission → Exec World ApiError Permission
  add_role_permission role permission = do
    let sub = partitioned "role" role
    authorize_exactly p ("roles" ∷ "permissions" ∷ []) scope e current sub "manage_permissions"
    put_rule sub permission

  unfoldable pub remove_role_permission : String → Permission → Exec World ApiError Permission
  remove_role_permission role permission = do
    let sub = partitioned "role" role
    authorize_exactly p ("roles" ∷ "permissions" ∷ []) scope e current sub "manage_permissions"
    drop_rule sub permission

  abbrev answered :
      {A : Type 0} → (A → Response) → Exec World ApiError A → Exec World ApiError Response
  answered f m = do a ← m; pure (f a)

  -- mount
  unfoldable pub serve : Request → Exec World ApiError Response
  serve (list_roles username query) = answered role_page (get_user_roles username query)
  serve (assign username role) = answered one_role (add_user_role username role)
  serve (unassign username role) = answered one_role (remove_user_role username role)
  serve (list_user username query) = answered permission_page (get_user_permissions username query)
  serve (grant_user username body) = answered one_permission (add_user_permission username body)
  serve (withdraw_user username body) =
      answered one_permission (remove_user_permission username body)
  serve (list_role role query) = answered permission_page (get_role_permissions role query)
  serve (grant_role role body) = answered one_permission (add_role_permission role body)
  serve (withdraw_role role body) = answered one_permission (remove_role_permission role body)
