-- ===== src/Oauth/Response.antt =====
-- server/src/oauth/response.rs
use enseada.Prelude.{String, Bool, true, false, Option, none, some, if◌then◌else◌}
use enseada.Prelude.Table.{Table}
use enseada.Platform.{Platform, ℤ}
use enseada.Oauth.Scope.{Scope}
use enseada.Oauth.Code.{AuthorizationCode}
use enseada.Oauth.Token.{Token, TokenTypeHint}

pub data TokenType : Type 0 where
  bearer : TokenType

pub record RevocationResponse : Type 0 where
  pub ok : Bool

-- RevocationResponse::ok()
unfoldable pub revoked : RevocationResponse
revoked = record { ok = true }

module _ (p : Platform) where
  open p use {World, Time, Json}

  pub record AuthorizationResponse : Type 0 where
    pub code : AuthorizationCode p
    pub state : Option String

  pub record TokenResponse : Type 0 where
    pub access_token : String
    pub token_type : TokenType
    pub expires_in : ℤ
    pub refresh_token : Option String
    pub scope : Scope
    pub extra : Table Json

  pub record ActiveIntrospectionResponse : Type 0 where
    pub scope : Scope
    pub client_id : String
    pub username : Option String
    pub token_type : TokenTypeHint
    pub exp : Time

  pub record IntrospectionResponse : Type 0 where
    pub active : Bool
    pub introspection_data : Option ActiveIntrospectionResponse

  unfoldable pub inactive : IntrospectionResponse
  inactive = record { active = false; introspection_data = none }

  -- IntrospectionResponse::active
  unfoldable pub active_response : {T : Type 0} → Token p T → T → IntrospectionResponse
  active_response i token = record {
    active = true;
    introspection_data = some (record {
      scope = (i.session token).scope;
      client_id = (i.session token).client_id;
      username = (i.session token).user_id;
      token_type = i.type_hint token;
      exp = i.expiration token;
    });
  }

  unfoldable pub from_token : {T : Type 0} → Token p T → T → World → IntrospectionResponse × World
  from_token i token w =
      let (expired, w') = i.is_expired token w in
      (if expired then inactive else active_response i token, w')
