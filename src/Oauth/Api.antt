-- ===== src/Oauth/Api.antt =====
-- server/src/oauth/routes/api.rs: the endpoints of clients, as functions of the token's scope, the
-- current user and the parsed request.
pub mod Access
pub mod Lifecycle
use enseada.Prelude.{String, append, Option, none, some, List, [], ◌∷◌}
use enseada.Prelude.Exec.{Exec, pure, fail, ok_or, map_err, ◌>>=◌, ◌>>◌}
use enseada.Platform.{Platform}
use enseada.Guid.{simple}
use enseada.Couch.Database.{Database}
use enseada.Pagination.{Page, map_page}
use enseada.Oauth.Scope.{Scope}
use enseada.Oauth.Client
use enseada.Oauth.Client.{
  Client, new_public, new_confidential, set_client_secret, set_allowed_scopes,
  set_allowed_redirect_uris,
}
use enseada.Oauth.Persistence
use enseada.Oauth.Persistence.Entities.{client_guid}
use enseada.Rbac.Enforcer.{Enforcer}
use enseada.Users.Service.{User}
use enseada.Http.Errors.{ApiError, not_found, validation_error, from_oauth}
use enseada.Http.Query.{PaginationQuery, limit, read_cursor}
use enseada.Http.Guard.{authorize}

-- `ClientKind` of the requests.
pub data ClientKind : Type 0 where
  public confidential : ClientKind

-- kind().to_string()
unfoldable pub kind_name : Client.ClientKind → String
kind_name Client.public = "public"
kind_name (Client.confidential hash) = "confidential"

module _ (p : Platform) where
  open p use {World, Url}

  pub record ClientResponse : Type 0 where
    pub client_id : String
    pub kind : String
    pub allowed_scopes : Scope
    pub allowed_redirect_uris : List Url

  -- `From<&Client> for ClientResponse`
  unfoldable pub from_client : Client p → ClientResponse
  from_client client = record {
    client_id = client.client_id;
    kind = kind_name client.kind;
    allowed_scopes = client.allowed_scopes;
    allowed_redirect_uris = client.allowed_redirect_uris;
  }

  pub record CreateClientPayload : Type 0 where
    pub client_id : String
    pub kind : ClientKind
    pub client_secret : Option String
    pub allowed_scopes : Scope
    pub allowed_redirect_uris : List Url

  pub record UpdateClientPayload : Type 0 where
    pub client_secret : Option String
    pub allowed_scopes : Option Scope
    pub allowed_redirect_uris : Option (List Url)

  -- The routes of the clients, with the parameters of the path, the query and the body.
  pub data Request : Type 0 where
    list_all : PaginationQuery → Request
    create : CreateClientPayload → Request
    get_one delete_one : String → Request
    update : String → UpdateClientPayload → Request

  pub data Response : Type 0 where
    client_page : Page ClientResponse → Response
    one_client : ClientResponse → Response

  abbrev secret_required : ApiError
  secret_required = validation_error ("client_secret is required for confidential clients" ∷ [])

  -- The client that a request describes.
  unfoldable pub new_client : CreateClientPayload → Exec World ApiError (Client p)
  unfolding new_public
  new_client body = elim body.kind [
    | public ↦ pure (new_public p body.client_id body.allowed_scopes body.allowed_redirect_uris)
    | confidential ↦ elim body.client_secret [
      | none ↦ fail secret_required
      | some secret ↦
          map_err from_oauth (
            new_confidential p body.client_id secret body.allowed_scopes body.allowed_redirect_uris)
    ]
  ]

  abbrev set_secret : Option String → Client p → Exec World ApiError (Client p)
  set_secret none client = pure client
  set_secret (some secret) client = map_err from_oauth (set_client_secret p client secret)

  abbrev set_scopes : Option Scope → Client p → Client p
  set_scopes none client = client
  set_scopes (some scopes) client = set_allowed_scopes p client scopes

  abbrev set_uris : Option (List Url) → Client p → Client p
  set_uris none client = client
  set_uris (some uris) client = set_allowed_redirect_uris p client uris

  -- The three changes of an update, each where the body has a value for it.
  unfoldable pub changed : UpdateClientPayload → Client p → Exec World ApiError (Client p)
  unfolding set_allowed_scopes set_allowed_redirect_uris
  changed body client = do
    renewed ← set_secret body.client_secret client
    pure (set_uris body.allowed_redirect_uris (set_scopes body.allowed_scopes renewed))

  module _ (c : Persistence.Codecs p) (db : Database) (e : Enforcer p) (scope : Scope)
      (current : User) where
    unfoldable pub list_clients : PaginationQuery → Exec World ApiError (Page ClientResponse)
    list_clients query = do
      authorize p "clients:read" scope e current (simple "clients") "read"
      cursor ← read_cursor p query.cursor
      page ← map_err from_oauth (Persistence.list_clients p c db (limit query) cursor)
      pure (map_page from_client page)

    unfoldable pub create_client : CreateClientPayload → Exec World ApiError ClientResponse
    unfolding new_client
    create_client body = do
      authorize p "clients:manage" scope e current (simple "clients") "create"
      client ← new_client body
      saved ← map_err from_oauth (Persistence.save_client p c db client)
      pure (from_client saved)

    -- storage.get_client(client_id), which has to find the client
    abbrev pub existing : String → Exec World ApiError (Client p)
    existing client_id = do
      found ← map_err from_oauth (Persistence.get_client p c db client_id)
      ok_or (not_found (append "client '" (append client_id "' not found"))) found

    unfoldable pub get_client : String → Exec World ApiError ClientResponse
    get_client client_id = do
      authorize p "clients:read" scope e current (client_guid client_id) "read"
      client ← existing client_id
      pure (from_client client)

    unfoldable pub update_client : String → UpdateClientPayload → Exec World ApiError ClientResponse
    unfolding changed
    update_client client_id body = do
      authorize p "clients:manage" scope e current (simple "clients") "update"
      client ← existing client_id
      next ← changed body client
      saved ← map_err from_oauth (Persistence.save_client p c db next)
      pure (from_client saved)

    unfoldable pub delete_client : String → Exec World ApiError ClientResponse
    delete_client client_id = do
      authorize p "clients:manage" scope e current (client_guid client_id) "delete"
      client ← existing client_id
      map_err from_oauth (Persistence.delete_client p c db client)
      pure (from_client client)

    -- The routes of server/src/oauth/routes/mod.rs.
    unfoldable pub serve : Request → Exec World ApiError Response
    serve (list_all query) = do page ← list_clients query; pure (client_page page)
    serve (create body) = do client ← create_client body; pure (one_client client)
    serve (get_one client_id) = do client ← get_client client_id; pure (one_client client)
    serve (update client_id body) = do
      client ← update_client client_id body
      pure (one_client client)
    serve (delete_one client_id) = do client ← delete_client client_id; pure (one_client client)
