-- ===== src/Oauth/Persistence/Entities.antt =====
-- server/src/oauth/persistence/entity: the documents of clients, codes and tokens.
use Prim.Native.String.{String, ◌++◌}
use enseada.Prelude.{Option, none, some, List}
use enseada.Platform.{Platform}
use enseada.Guid
use enseada.Guid.{Guid}
use enseada.Secure
use enseada.Secure.{SecureSecret}
use enseada.Oauth.Scope.{Scope}
use enseada.Oauth.Session.{Session}
use enseada.Oauth.Client
use enseada.Oauth.Client.{Client, new_public, confidential_with_hash}
use enseada.Oauth.Code
use enseada.Oauth.Code.{AuthorizationCode}
use enseada.Oauth.AccessToken
use enseada.Oauth.AccessToken.{AccessToken}
use enseada.Oauth.RefreshToken
use enseada.Oauth.RefreshToken.{RefreshToken}

-- AccessTokenEntity::build_guid
unfoldable pub access_guid : String → Guid
access_guid sig = Guid.from ("access_token:" ++ sig)

-- RefreshTokenEntity::build_guid, with the partition of the access tokens.
unfoldable pub refresh_guid : String → Guid
refresh_guid sig = Guid.from ("access_token:" ++ sig)

-- AuthorizationCodeEntity::build_guid
unfoldable pub code_guid : String → Guid
code_guid sig = Guid.from ("code:" ++ sig)

-- ClientEntity::build_guid
unfoldable pub client_guid : String → Guid
client_guid id = Guid.from ("client:" ++ id)

-- `ClientKind` of the documents, which has no hash.
pub data StoredKind : Type 0 where
  public confidential : StoredKind

abbrev stored_kind : Client.ClientKind → StoredKind
stored_kind Client.public = public
stored_kind (Client.confidential hash) = confidential

abbrev stored_hash : Client.ClientKind → Option String
stored_hash Client.public = none
stored_hash (Client.confidential hash) = some hash

module _ (p : Platform) where
  open p use {World, Time, Span, Url, utc_now, signed_duration_since}

  pub record AccessTokenEntity : Type 0 where
    pub id : Guid
    pub rev : Option String
    pub session : Session
    pub expiration : Time

  pub record RefreshTokenEntity : Type 0 where
    pub id : Guid
    pub rev : Option String
    pub session : Session
    pub expiration : Time
    pub related_access_token_signature : String

  pub record AuthorizationCodeEntity : Type 0 where
    pub id : Guid
    pub rev : Option String
    pub session : Session
    pub expiration : Time

  pub record ClientEntity : Type 0 where
    pub id : Guid
    pub rev : Option String
    pub kind : StoredKind
    pub client_secret_hash : Option String
    pub allowed_scopes : Scope
    pub allowed_redirect_uris : List Url

  -- AccessTokenEntity::from_token
  unfoldable pub from_access : String → AccessToken p → AccessTokenEntity
  unfolding access_guid
  from_access sig token = record {
    id = access_guid sig;
    rev = none;
    session = token.session;
    expiration = token.expiration;
  }

  -- RefreshTokenEntity::from_token
  unfoldable pub from_refresh : String → RefreshToken p → RefreshTokenEntity
  unfolding refresh_guid
  from_refresh sig token = record {
    id = refresh_guid sig;
    rev = none;
    session = token.session;
    expiration = token.expiration;
    related_access_token_signature = token.related_access_token_signature;
  }

  -- AuthorizationCodeEntity::new
  unfoldable pub new_code : String → Session → Time → AuthorizationCodeEntity
  unfolding code_guid
  new_code sig session expiration = record {
    id = code_guid sig;
    rev = none;
    session = session;
    expiration = expiration;
  }

  -- The clock is read for what is left of the time, and again by the token's constructor.
  unfoldable pub to_access : AccessTokenEntity → SecureSecret → World → AccessToken p × World
  to_access entity token w =
      let (now, w') = utc_now w in
      AccessToken.new p token entity.session (signed_duration_since entity.expiration now) w'

  unfoldable pub to_refresh : RefreshTokenEntity → SecureSecret → World → RefreshToken p × World
  to_refresh entity token w =
      let (now, w') = utc_now w in
      RefreshToken.new p token entity.session (signed_duration_since entity.expiration now)
        entity.related_access_token_signature w'

  unfoldable pub to_empty_access : AccessTokenEntity → World → AccessToken p × World
  unfolding to_access
  to_empty_access entity = to_access entity Secure.empty

  unfoldable pub to_empty_refresh : RefreshTokenEntity → World → RefreshToken p × World
  unfolding to_refresh
  to_empty_refresh entity = to_refresh entity Secure.empty

  unfoldable pub to_empty_code : AuthorizationCodeEntity → World → AuthorizationCode p × World
  to_empty_code entity w =
      let (now, w') = utc_now w in
      Code.new p Secure.empty entity.session (signed_duration_since entity.expiration now) w'

  -- `From<Client> for ClientEntity`
  unfoldable pub from_client : Client p → ClientEntity
  unfolding client_guid
  from_client client = record {
    id = client_guid client.client_id;
    rev = none;
    kind = stored_kind client.kind;
    client_secret_hash = stored_hash client.kind;
    allowed_scopes = client.allowed_scopes;
    allowed_redirect_uris = client.allowed_redirect_uris;
  }

  -- `TryInto<Client> for ClientEntity`; `none` is the panic of `unwrap` on a missing hash.
  unfoldable pub to_client : ClientEntity → Option (Client p)
  unfolding new_public confidential_with_hash
  to_client entity = elim entity.kind [
    | public ↦ some (new_public p entity.id.id entity.allowed_scopes entity.allowed_redirect_uris)
    | confidential ↦ elim entity.client_secret_hash [
      | none ↦ none
      | some secret ↦ some (
          confidential_with_hash p entity.id.id secret entity.allowed_scopes
            entity.allowed_redirect_uris)
    ]
  ]
