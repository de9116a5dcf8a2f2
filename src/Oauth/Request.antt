-- ===== src/Oauth/Request.antt =====
-- server/src/oauth/request.rs
use enseada.Prelude.{String, Option}
use enseada.Oauth.Scope.{Scope}
use enseada.Oauth.Token.{TokenTypeHint}

pub data ResponseType : Type 0 where
  code : ResponseType

pub record AuthorizationRequest : Type 0 where
  pub response_type : ResponseType
  pub client_id : String
  pub redirect_uri : String
  pub scope : Scope
  pub state : Option String

pub record CodeGrant : Type 0 where
  pub code : String
  pub redirect_uri : String
  pub client_id : Option String
  pub client_secret : Option String

pub record RefreshGrant : Type 0 where
  pub refresh_token : String
  pub scope : Option Scope
  pub client_id : Option String
  pub client_secret : Option String

-- The fields of the two struct variants stand in records of their own.
pub data TokenRequest : Type 0 where
  authorization_code : CodeGrant → TokenRequest
  refresh_token : RefreshGrant → TokenRequest
  unknown : TokenRequest

pub record IntrospectionRequest : Type 0 where
  pub token : String
  pub token_type_hint : Option TokenTypeHint

pub record RevocationRequest : Type 0 where
  pub token : String
  pub token_type_hint : Option TokenTypeHint
