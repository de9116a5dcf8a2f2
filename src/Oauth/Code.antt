-- ===== src/Oauth/Code.antt =====
-- server/src/oauth/code.rs: authorization codes.
use enseada.Prelude.{String, Bool}
use enseada.Platform.{Platform, ℤ}
use enseada.Secure.{SecureSecret}
use enseada.Secure
use enseada.Oauth.Session.{Session}

module _ (p : Platform) where
  open p use {World, Time, Span, utc_now, plus, signed_duration_since, num_seconds, lt}

  pub record AuthorizationCode : Type 0 where
    pub code : SecureSecret
    pub session : Session
    pub expiration : Time

  unfoldable pub new : SecureSecret → Session → Span → World → AuthorizationCode × World
  new code session expires_in w =
      let (now, w') = utc_now w in
      (record { code = code; session = session; expiration = plus now expires_in }, w')

  unfoldable pub expires_in : AuthorizationCode → World → ℤ × World
  expires_in c w =
      let (now, w') = utc_now w in (num_seconds (signed_duration_since c.expiration now), w')

  unfoldable pub is_expired : AuthorizationCode → World → Bool × World
  is_expired c w = let (now, w') = utc_now w in (lt c.expiration now, w')

  unfoldable pub to_string : AuthorizationCode → String
  to_string c = Secure.to_string p c.code
