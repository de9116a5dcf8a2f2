-- ===== src/Oauth/Persistence.antt =====
-- server/src/oauth/persistence/storage.rs: `CouchStorage`, the storages of the handler as documents
-- of the database.
pub mod Entities
pub mod Laws
pub mod SingleUse
pub mod Clients
use enseada.Prelude.{append, ℕ, String, Option, none, some, List, [], ◌∷◌}
use enseada.Prelude.Exec.{
  Outcome, ok, err, panic, Exec, pure, fail, lift, total, ok_or, unwrap, map_err, ◌>>=◌, ◌>>◌,
}
use enseada.Platform.{Platform}
use enseada.Guid
use enseada.Guid.{Guid}
use enseada.Couch
use enseada.Couch.Responses.{PutResponse, RowsResponse}
use enseada.Couch.Database
use enseada.Couch.Database.{Codec, Database}
use enseada.Pagination.{Cursor, Page, from_rows_response}
use enseada.Oauth.Error
use enseada.Oauth.Error.{Error, server_error, invalid_request, invalid_client}
use enseada.Oauth.Client.{Client}
use enseada.Oauth.Code.{AuthorizationCode}
use enseada.Oauth.AccessToken
use enseada.Oauth.AccessToken.{AccessToken}
use enseada.Oauth.RefreshToken
use enseada.Oauth.RefreshToken.{RefreshToken}
use enseada.Oauth.Storage.{TokenStorage, AuthorizationCodeStorage}
use enseada.Oauth.Persistence.Entities.{
  AccessTokenEntity, RefreshTokenEntity, AuthorizationCodeEntity, ClientEntity, access_guid,
  refresh_guid, code_guid, client_guid, from_access, from_refresh, new_code, to_access, to_refresh,
  to_empty_access, to_empty_refresh, to_empty_code, from_client, to_client,
}

-- map_couch_err, and `From<couchdb::error::Error> for Error`
unfoldable pub map_couch_err : Couch.Error.Error → Error
map_couch_err e = Error.new server_error e.message

-- cursor.map(Cursor::to_string)
abbrev pub cursor_text : Option Cursor → Option String
cursor_text none = none
cursor_text (some cursor) = some cursor.text

-- The results of a list of unwraps; `none` is a panic.
abbrev pub unwrap_all : {A B : Type 0} → (A → Option B) → List A → Option (List B)
unwrap_all f [] = some []
unwrap_all f (a ∷ l) = elim (f a) [
  | none ↦ none
  | some b ↦ elim (unwrap_all f l) [ none ↦ none | some bs ↦ some (b ∷ bs) ]
]

-- client.set_rev(rev), where there is one
abbrev pub with_rev : Option String → Option String → Option String
with_rev none rev = rev
with_rev (some found) rev = some found

module _ (p : Platform) where
  open p use {World}

  -- The code that serde derives for the documents.
  pub record Codecs : Type 0 where
    pub client : Codec p (ClientEntity p)
    pub clients : Codec p (RowsResponse (ClientEntity p))
    pub access : Codec p (AccessTokenEntity p)
    pub refresh : Codec p (RefreshTokenEntity p)
    pub code : Codec p (AuthorizationCodeEntity p)
    pub stored : Codec p PutResponse
    pub done : Codec p (Unit {0})

  -- What a look-up makes of the answer of the database: an error is logged, and nothing is found.
  abbrev found_token :
      {E T : Type 0}
      → (E → World → T × World)
      → Outcome Couch.Error.Error (Option E)
      → World
      → Option T × World
  found_token f (ok (some entity)) w = let (token, w') = f entity w in (some token, w')
  found_token f (ok none) w = (none, w)
  found_token f (err e) w = (none, w)
  found_token f panic w = (none, w)

  module _ (c : Codecs) (db : Database) where
    -- `TokenStorage<AccessToken>`
    unfoldable pub get_access : String → World → Option (AccessToken p) × World
    get_access sig w =
        let (found, w') = Couch.Database.get p c.access db (Guid.to_string (access_guid sig)) w in
        found_token (to_empty_access p) found w'

    unfoldable pub store_access : String → AccessToken p → Exec World Error (AccessToken p)
    store_access sig token = do
      let entity = from_access p sig token
      map_err map_couch_err
          (Couch.Database.put p c.access c.stored db (Guid.to_string entity.id) entity)
      total (to_access p entity (AccessToken.token p token))

    -- What a revocation does with the document that was looked for.
    unfoldable pub remove_access : Option (AccessTokenEntity p) → Exec World Error (Unit {0})
    remove_access none = fail (Error.new invalid_request "invalid access token")
    remove_access (some entity) = do
      rev ← unwrap entity.rev
      map_err map_couch_err (Couch.Database.delete p c.done db (Guid.to_string entity.id) rev)

    unfoldable pub revoke_access : String → Exec World Error (Unit {0})
    unfolding remove_access
    revoke_access sig = do
      found ←
          map_err map_couch_err
            (Couch.Database.get p c.access db (Guid.to_string (access_guid sig)))
      remove_access found

    -- `TokenStorage<RefreshToken>`
    unfoldable pub get_refresh : String → World → Option (RefreshToken p) × World
    get_refresh sig w =
        let (found, w') = Couch.Database.get p c.refresh db (Guid.to_string (refresh_guid sig)) w in
        found_token (to_empty_refresh p) found w'

    unfoldable pub store_refresh : String → RefreshToken p → Exec World Error (RefreshToken p)
    store_refresh sig token = do
      let entity = from_refresh p sig token
      map_err map_couch_err
          (Couch.Database.put p c.refresh c.stored db (Guid.to_string entity.id) entity)
      total (to_refresh p entity (RefreshToken.token p token))

    -- What a revocation does with the document that was looked for.
    unfoldable pub remove_refresh : Option (RefreshTokenEntity p) → Exec World Error (Unit {0})
    remove_refresh none = fail (Error.new invalid_request "invalid refresh token")
    remove_refresh (some entity) = do
      rev ← unwrap entity.rev
      map_err map_couch_err (Couch.Database.delete p c.done db (Guid.to_string entity.id) rev)

    unfoldable pub revoke_refresh : String → Exec World Error (Unit {0})
    unfolding remove_refresh
    revoke_refresh sig = do
      found ←
          map_err map_couch_err
            (Couch.Database.get p c.refresh db (Guid.to_string (refresh_guid sig)))
      remove_refresh found

    -- `AuthorizationCodeStorage`
    unfoldable pub get_code : String → World → Option (AuthorizationCode p) × World
    get_code sig w =
        let (found, w') = Couch.Database.get p c.code db (Guid.to_string (code_guid sig)) w in
        found_token (to_empty_code p) found w'

    unfoldable pub store_code :
        String → AuthorizationCode p → Exec World Error (AuthorizationCode p)
    store_code sig code = do
      let entity = new_code p sig code.session code.expiration
      map_err map_couch_err
          (Couch.Database.put p c.code c.stored db (Guid.to_string entity.id) entity)
      pure code

    -- What a revocation does with the document that was looked for.
    unfoldable pub remove_code : Option (AuthorizationCodeEntity p) → Exec World Error (Unit {0})
    remove_code none = fail (Error.new invalid_request "invalid authorization code")
    remove_code (some entity) = do
      rev ← unwrap entity.rev
      map_err map_couch_err (Couch.Database.delete p c.done db (Guid.to_string entity.id) rev)

    unfoldable pub revoke_code : String → Exec World Error (Unit {0})
    unfolding remove_code
    revoke_code sig = do
      found ←
          map_err map_couch_err (Couch.Database.get p c.code db (Guid.to_string (code_guid sig)))
      remove_code found

    -- `ClientStorage`: the page that is read, with each document as a client.
    unfoldable pub list_clients : ℕ → Option Cursor → Exec World Error (Page (Client p))
    list_clients limit cursor = do
      res ←
          map_err map_couch_err
            (Couch.Database.list_partitioned p c.clients db "client" limit (cursor_text cursor))
      let page = from_rows_response p res limit
      items ← unwrap (unwrap_all (to_client p) page.items)
      pure (record { count = page.count; next_cursor = page.next_cursor; items = items })

    abbrev found_client :
        Outcome Couch.Error.Error (Option (ClientEntity p)) → Outcome Error (Option (Client p))
    found_client (ok (some entity)) = elim (to_client p entity) [
      | none ↦ panic
      | some client ↦ ok (some client)
    ]
    found_client (ok none) = ok none
    found_client (err e) = ok none
    found_client panic = panic

    -- The document of a confidential client without a hash makes it panic.
    unfoldable pub get_client : String → Exec World Error (Option (Client p))
    get_client id w =
        let (found, w') = Couch.Database.get p c.client db (Guid.to_string (client_guid id)) w in
        (found_client found, w')

    abbrev pub rev_of : Option (ClientEntity p) → Option String
    rev_of none = none
    rev_of (some entity) = entity.rev

    unfoldable pub save_client : Client p → Exec World Error (Client p)
    save_client client = do
      found ←
          map_err map_couch_err
            (Couch.Database.get p c.client db (Guid.to_string (client_guid client.client_id)))
      let entity = from_client p client
      let next = record entity { rev = with_rev (rev_of found) entity.rev }
      res ←
          map_err map_couch_err
            (Couch.Database.put p c.client c.stored db (Guid.to_string next.id) next)
      unwrap (to_client p (record next { rev = some res.rev }))

    unfoldable pub delete_client : Client p → Exec World Error (Unit {0})
    delete_client client = do
      let id = client_guid client.client_id
      found ← map_err map_couch_err (Couch.Database.get p c.client db (Guid.to_string id))
      entity ←
          ok_or (Error.new invalid_client (append "client '" (append id.id "' not found"))) found
      rev ← unwrap entity.rev
      map_err map_couch_err (Couch.Database.delete p c.done db (Guid.to_string entity.id) rev)

    abbrev pub access_tokens : TokenStorage p (AccessToken p)
    access_tokens = record {
      get_token = get_access;
      store_token = store_access;
      revoke_token = revoke_access;
    }

    abbrev pub refresh_tokens : TokenStorage p (RefreshToken p)
    refresh_tokens = record {
      get_token = get_refresh;
      store_token = store_refresh;
      revoke_token = revoke_refresh;
    }

    abbrev pub codes : AuthorizationCodeStorage p
    codes = record { get_code = get_code; store_code = store_code; revoke_code = revoke_code }
