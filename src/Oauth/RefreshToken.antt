-- ===== src/Oauth/RefreshToken.antt =====
-- `RefreshToken` of server/src/oauth/token.rs
use enseada.Prelude.{String, Bool, Option, some}
use enseada.Platform.{Platform, ℤ}
use enseada.Secure.{SecureSecret}
use enseada.Secure
use enseada.Oauth.Session.{Session}
use enseada.Oauth.AccessToken.{or_empty}
use enseada.Oauth.Token.{Token, refresh_token}

module _ (p : Platform) where
  open p use {World, Time, Span, utc_now, plus, signed_duration_since, num_seconds, lt}

  pub record RefreshToken : Type 0 where
    pub token_rep : Option SecureSecret
    pub session : Session
    pub expiration : Time
    pub related_access_token_signature : String

  unfoldable pub new : SecureSecret → Session → Span → String → World → RefreshToken × World
  new token session expires_in related w =
      let (now, w') = utc_now w in
      (
        record {
          token_rep = some token;
          session = session;
          expiration = plus now expires_in;
          related_access_token_signature = related;
        },
        w',
      )

  unfoldable pub token : RefreshToken → SecureSecret
  token t = or_empty t.token_rep

  unfoldable pub expires_in : RefreshToken → World → ℤ × World
  expires_in t w =
      let (now, w') = utc_now w in (num_seconds (signed_duration_since t.expiration now), w')

  unfoldable pub is_expired : RefreshToken → World → Bool × World
  is_expired t w = let (now, w') = utc_now w in (lt t.expiration now, w')

  unfoldable pub to_string : RefreshToken → String
  unfolding token
  to_string t = Secure.to_string p (token t)

  abbrev pub as_token : Token p RefreshToken
  as_token = record {
    token = token;
    session = λ t. t.session;
    type_hint = λ t. refresh_token;
    expiration = λ t. t.expiration;
    is_expired = is_expired;
  }
