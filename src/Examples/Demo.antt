-- ===== src/Examples/Demo.antt =====
-- A platform and storages that compute: numbers for times and spans, texts for URLs, JSON and glob
-- patterns, functions for the tables of the databases.
use enseada.Prelude.{
  ℕ, ◌+◌, ◌-◌, String, true, Option, none, some, List, [], ◌∷◌, suc, zero, ltb, ◌==◌, if◌then◌else◌,
  append,
}
use enseada.Prelude.Exec.{ok}
use enseada.Platform.{Platform, pos}
use enseada.Secure.{SecureSecret}
use enseada.Oauth.Session.{Session}
use enseada.Oauth.Scope.{Scope}
use enseada.Oauth.Client.{Client, confidential}
use enseada.Oauth.Code.{AuthorizationCode}
use enseada.Oauth.AccessToken.{AccessToken}
use enseada.Oauth.RefreshToken.{RefreshToken}
use enseada.Oauth.Storage.{ClientStorage, TokenStorage, AuthorizationCodeStorage}
use enseada.Oauth.Handler.{OAuthHandler}

-- A token or a code as it is stored; a code has its secret in `token_rep`.
pub record Raw : Type 0 where
  pub token_rep : Option SecureSecret
  pub session : Session
  pub expiration : ℕ
  pub related : String

pub record Shelf : Type 0 where
  pub clock : ℕ
  pub drawn : ℕ
  pub access : String → Option Raw
  pub refresh : String → Option Raw
  pub codes : String → Option Raw

abbrev pub set : String → Option Raw → (String → Option Raw) → String → Option Raw
set k v m x = if x == k then v else m x

-- The number of characters of a text, and a text of so many strokes.
abbrev pub count : String → ℕ
count String.[] = 0
count (String.◌∷◌ c s) = suc (count s)

abbrev pub strokes : List ℕ → String
strokes [] = ""
strokes (zero ∷ r) = ""
strokes (suc n ∷ r) = append "i" (strokes (n ∷ r))

-- Every text is a pattern but "[".
abbrev pub demo : Platform
demo = record {
  World = Shelf;
  Time = ℕ;
  Span = ℕ;
  utc_now = λ w. (w.clock, w);
  plus = λ a b. a + b;
  signed_duration_since = λ a b. a - b;
  num_seconds = pos;
  lt = ltb;
  minutes = λ n. n;
  days = λ n. n;
  fill = λ n w. (ok (w.drawn ∷ []), record w { drawn = suc w.drawn });
  hmac = λ key text. count text ∷ [];
  hex = strokes;
  verify_encoded = λ hash secret. ok (hash == secret);
  hash_encoded = λ secret salt. ok secret;
  Url = String;
  parse_url = λ text. ok text;
  url_eq = λ a b. a == b;
  base64_encode = λ text. text;
  base64_decode = λ text. ok [];
  from_utf8 = λ bytes. ok "";
  Json = String;
  json_text = λ text. text;
  request = λ method path body query w. (ok "", w);
  head = λ path w. (ok tt, w);
  find_body = λ selector limit bookmark. selector;
  field_equals = λ name text. text;
  Pattern = String;
  parse_pattern = λ text. if text == "[" then none else some text;
  pattern_matches = λ pattern text. if pattern == "*" then true else pattern == text;
  secret_key = "";
}

abbrev pub read_scope : Scope
read_scope = record { names = "read" ∷ [] }

abbrev pub app_session : Session
app_session = record { client_id = "app"; scope = read_scope; user_id = some "ann" }

abbrev pub app_raw : Raw
app_raw = record {
  token_rep = some (record { bytes = 3 ∷ [] });
  session = app_session;
  expiration = 10;
  related = "iiii";
}

abbrev app_uri : String
app_uri = "https://app/cb"

abbrev pub app : Client demo
app = record {
  client_id = "app";
  kind = confidential "secret";
  allowed_scopes = record { names = "read" ∷ "write" ∷ [] };
  allowed_redirect_uris = app_uri ∷ [];
}

-- One code, one access token and one refresh token, for the same session.
abbrev pub shelf : Shelf
shelf = record {
  clock = 5;
  drawn = 7;
  access = set "iiii" (some app_raw) (λ _. none);
  refresh = set "iii" (some app_raw) (λ _. none);
  codes = set "ii" (some app_raw) (λ _. none);
}

abbrev access_of : Option Raw → Option (AccessToken demo)
access_of none = none
access_of (some r) =
    some (record { token_rep = r.token_rep; session = r.session; expiration = r.expiration })

abbrev refresh_of : Option Raw → Option (RefreshToken demo)
refresh_of none = none
refresh_of (some r) = some (record {
  token_rep = r.token_rep;
  session = r.session;
  expiration = r.expiration;
  related_access_token_signature = r.related;
})

abbrev secret_of : Option SecureSecret → SecureSecret
secret_of none = record { bytes = [] }
secret_of (some s) = s

abbrev code_of : Option Raw → Option (AuthorizationCode demo)
code_of none = none
code_of (some r) =
    some (record { code = secret_of r.token_rep; session = r.session; expiration = r.expiration })

abbrev pub clients : ClientStorage demo
clients = record {
  list_clients =
      λ limit cursor w. (ok (record { count = 1; next_cursor = none; items = app ∷ [] }), w);
  get_client = λ id w. (if id == "app" then some app else none, w);
  save_client = λ client w. (ok client, w);
  delete_client = λ client w. (ok tt, w);
}

abbrev pub access_tokens : TokenStorage demo (AccessToken demo)
access_tokens = record {
  get_token = λ sig w. (access_of (w.access sig), w);
  store_token = λ sig t w. (
    ok t,
    record w {
      access =
          set sig
            (some (record {
              token_rep = t.token_rep;
              session = t.session;
              expiration = t.expiration;
              related = "";
            }))
            w.access;
    },
  );
  revoke_token = λ sig w. (ok tt, record w { access = set sig none w.access });
}

abbrev pub refresh_tokens : TokenStorage demo (RefreshToken demo)
refresh_tokens = record {
  get_token = λ sig w. (refresh_of (w.refresh sig), w);
  store_token = λ sig t w. (
    ok t,
    record w {
      refresh =
          set sig
            (some (record {
              token_rep = t.token_rep;
              session = t.session;
              expiration = t.expiration;
              related = t.related_access_token_signature;
            }))
            w.refresh;
    },
  );
  revoke_token = λ sig w. (ok tt, record w { refresh = set sig none w.refresh });
}

abbrev pub codes : AuthorizationCodeStorage demo
codes = record {
  get_code = λ sig w. (code_of (w.codes sig), w);
  store_code = λ sig c w. (
    ok c,
    record w {
      codes =
          set sig
            (some (record {
              token_rep = some c.code;
              session = c.session;
              expiration = c.expiration;
              related = "";
            }))
            w.codes;
    },
  );
  revoke_code = λ sig w. (ok tt, record w { codes = set sig none w.codes });
}

abbrev pub handler : OAuthHandler demo
handler = record {
  client_storage = clients;
  access_token_storage = access_tokens;
  refresh_token_storage = refresh_tokens;
  authorization_code_storage = codes;
}
