-- ===== src/Users/Routes.antt =====
-- server/src/user/routes.rs: the endpoints of users, as functions of the token's scope, the current
-- user and the parsed request.
pub mod Access
pub mod Lifecycle
use enseada.Prelude.{String, append, Option, none, some, List, [], ◌∷◌}
use enseada.Prelude.Exec.{Exec, pure, ok_or, map_err, ◌>>=◌, ◌>>◌}
use enseada.Platform.{Platform}
use enseada.Guid.{Guid, simple}
use enseada.Couch.Database.{Database}
use enseada.Pagination.{Page, map_page}
use enseada.Oauth.Scope.{Scope}
use enseada.Rbac.Enforcer
use enseada.Rbac.Enforcer.{Enforcer}
use enseada.Users.Repository
use enseada.Users.Service
use enseada.Users.Service.{User, as_entity, user_guid}
use enseada.Http.Errors.{ApiError, not_found, from_library, from_couch}
use enseada.Http.Query.{PaginationQuery, limit, read_cursor}
use enseada.Http.Guard.{require, authorize}

pub record UserResponse : Type 0 where
  pub username : String

-- `From<&User> for UserResponse`
unfoldable pub from_user : User → UserResponse
from_user user = record { username = Service.username user }

pub record Registration : Type 0 where
  pub username : String
  pub password : String
  pub roles : Option (List String)

-- What `mount` registers, with the parameters of the path, the query and the body.
pub data Request : Type 0 where
  list_users : PaginationQuery → Request
  get_user delete_user : String → Request
  show_me : Request
  register_user : Registration → Request

pub data Response : Type 0 where
  user_page : Page UserResponse → Response
  one_user : UserResponse → Response
  no_content : Response

module _ (p : Platform) (c : Enforcer.Codecs p) (users : Repository.Codecs p as_entity)
    (db : Database) (e : Enforcer p) (scope : Scope) (current : User) where
  open p use {World}

  unfoldable pub list : PaginationQuery → Exec World ApiError (Page UserResponse)
  list query = do
    authorize p "users:read" scope e current (simple "users") "read"
    cursor ← read_cursor p query.cursor
    page ← map_err from_couch (Repository.list p as_entity users db (limit query) cursor)
    pure (map_page from_user page)

  unfoldable pub get : String → Exec World ApiError UserResponse
  get username = do
    authorize p "users:read" scope e current (user_guid username) "read"
    found ← map_err from_couch (Repository.find p as_entity users db username)
    user ← ok_or (not_found (append "User " (append username " not found"))) found
    pure (from_user user)

  unfoldable pub delete : String → Exec World ApiError (Unit {0})
  delete username = do
    authorize p "users:manage" scope e current (user_guid username) "delete"
    found ← map_err from_couch (Repository.find p as_entity users db username)
    user ← ok_or (not_found username) found
    map_err from_couch (Repository.delete p as_entity users db user)

  -- The current user, of which no permission is asked.
  unfoldable pub me : Exec World ApiError UserResponse
  me = do require p "profile" scope; pure (from_user current)

  -- The loop over the roles of a registration. The first error ends it.
  unfoldable pub add_roles : Guid → List String → Exec World ApiError (Unit {0})
  add_roles sub [] = pure tt
  add_roles sub (role ∷ rest) =
      let next = add_roles sub rest in
      map_err from_library (Enforcer.add_role_to_principal p c e sub role) >> next

  abbrev pub add_given : Guid → Option (List String) → Exec World ApiError (Unit {0})
  add_given sub none = pure tt
  add_given sub (some roles) = add_roles sub roles

  unfoldable pub register : Registration → Exec World ApiError UserResponse
  unfolding add_roles
  register registration = do
    authorize p "users:manage" scope e current (simple "users") "create"
    made ← map_err from_library (Service.new p registration.username registration.password)
    user ← map_err from_couch (Repository.save p as_entity users db made)
    add_given user.id registration.roles
    pure (from_user user)

  -- mount
  unfoldable pub serve : Request → Exec World ApiError Response
  serve (list_users query) = do page ← list query; pure (user_page page)
  serve (get_user username) = do user ← get username; pure (one_user user)
  serve (delete_user username) = do delete username; pure no_content
  serve show_me = do user ← me; pure (one_user user)
  serve (register_user registration) = do user ← register registration; pure (one_user user)
