-- ===== src/Oauth/AccessToken.antt =====
-- `AccessToken` of server/src/oauth/token.rs
use enseada.Prelude.{String, Bool, Option, none, some}
use enseada.Platform.{Platform, ℤ}
use enseada.Secure.{SecureSecret}
use enseada.Secure
use enseada.Oauth.Session.{Session}
use enseada.Oauth.Token.{Token, access_token}

-- token_rep.unwrap_or_else(SecureSecret::empty)
abbrev pub or_empty : Option SecureSecret → SecureSecret
or_empty (some s) = s
or_empty none = Secure.empty

module _ (p : Platform) where
  open p use {World, Time, Span, utc_now, plus, signed_duration_since, num_seconds, lt}

  pub record AccessToken : Type 0 where
    pub token_rep : Option SecureSecret
    pub session : Session
    pub expiration : Time

  unfoldable pub new : SecureSecret → Session → Span → World → AccessToken × World
  new token session expires_in w =
      let (now, w') = utc_now w in
      (record { token_rep = some token; session = session; expiration = plus now expires_in }, w')

  unfoldable pub token : AccessToken → SecureSecret
  token t = or_empty t.token_rep

  unfoldable pub expires_in : AccessToken → World → ℤ × World
  expires_in t w =
      let (now, w') = utc_now w in (num_seconds (signed_duration_since t.expiration now), w')

  unfoldable pub is_expired : AccessToken → World → Bool × World
  is_expired t w = let (now, w') = utc_now w in (lt t.expiration now, w')

  unfoldable pub to_string : AccessToken → String
  unfolding token
  to_string t = Secure.to_string p (token t)

  abbrev pub as_token : Token p AccessToken
  as_token = record {
    token = token;
    session = λ t. t.session;
    type_hint = λ t. access_token;
    expiration = λ t. t.expiration;
    is_expired = is_expired;
  }
