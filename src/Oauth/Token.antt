-- ===== src/Oauth/Token.antt =====
-- server/src/oauth/token.rs: what access and refresh tokens have in common.
use enseada.Prelude.{Bool}
use enseada.Platform.{Platform}
use enseada.Secure.{SecureSecret}
use enseada.Oauth.Session.{Session}

pub data TokenTypeHint : Type 0 where
  access_token refresh_token unknown : TokenTypeHint

-- The trait `Token`, with what it needs of `Expirable`.
pub record Token (p : Platform) (T : Type 0) : Type 0 where
  pub token : T → SecureSecret
  pub session : T → Session
  pub type_hint : T → TokenTypeHint
  pub expiration : T → p.Time
  pub is_expired : T → p.World → Bool × p.World
