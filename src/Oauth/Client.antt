-- ===== src/Oauth/Client.antt =====
-- server/src/oauth/client.rs
use enseada.Prelude.{String, List}
use enseada.Prelude.Exec.{Exec, pure, fail, map_err, ◌>>=◌}
use enseada.Platform.{Platform}
use enseada.Secure.{hash_password}
use enseada.Oauth.Error
use enseada.Oauth.Error.{Error, invalid_client}
use enseada.Oauth.Scope.{Scope}

pub data ClientKind : Type 0 where
  public : ClientKind
  confidential : String → ClientKind

module _ (p : Platform) where
  open p use {World, Url}

  pub record Client : Type 0 where
    pub client_id : String
    pub kind : ClientKind
    pub allowed_scopes : Scope
    pub allowed_redirect_uris : List Url

  -- Client::public
  unfoldable pub new_public : String → Scope → List Url → Client
  new_public client_id scopes uris = record {
    client_id = client_id;
    kind = public;
    allowed_scopes = scopes;
    allowed_redirect_uris = uris;
  }

  unfoldable pub confidential_with_hash : String → String → Scope → List Url → Client
  confidential_with_hash client_id hash scopes uris = record {
    client_id = client_id;
    kind = confidential hash;
    allowed_scopes = scopes;
    allowed_redirect_uris = uris;
  }

  -- Client::confidential
  unfoldable pub new_confidential : String → String → Scope → List Url → Exec World Error Client
  unfolding confidential_with_hash
  new_confidential client_id client_secret scopes uris = do
    secret ← map_err (Error.new invalid_client) (hash_password p client_secret)
    pure (confidential_with_hash client_id secret scopes uris)

  unfoldable pub set_client_secret : Client → String → Exec World Error Client
  set_client_secret client secret = elim client.kind [
    | public ↦ fail (Error.new invalid_client "cannot set client secret for a public client")
    | confidential _ ↦ (do
      hash ← map_err (Error.new invalid_client) (hash_password p secret)
      pure (record client { kind = confidential hash }))
  ]

  unfoldable pub set_allowed_scopes : Client → Scope → Client
  set_allowed_scopes client scopes = record client { allowed_scopes = scopes }

  unfoldable pub set_allowed_redirect_uris : Client → List Url → Client
  set_allowed_redirect_uris client uris = record client { allowed_redirect_uris = uris }
