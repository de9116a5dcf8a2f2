-- ===== src/Examples/Endpoints.antt =====
-- The theorems about the endpoints, users and errors at concrete inputs.
use enseada.Prelude.{
  ℕ, String, true, false, Option, none, some, List, [], ◌∷◌, ◌≡◌, ◌≢◌, refl, ap, ◌↔◌, ◌⊎◌, inl, inr,
  arith, eq_iff, ◌+◌, ◌≤◌, length,
}
use enseada.Prelude.Exec.{ok}
use enseada.Guid
use enseada.Guid.{Guid}
use enseada.Couch
use enseada.Couch.Database.{Database}
use enseada.Couch.Responses.{RowsResponse, RawDocResponse}
use enseada.Pagination.{Page, from_rows_response}
use enseada.Pagination.Pages.{IsPageOf}
use enseada.Oauth.Error as OauthError
use enseada.Oauth.Error.{invalid_client, invalid_redirect_uri}
use enseada.Oauth.AccessToken.{AccessToken}
use enseada.Oauth.Request.{RevocationRequest, code}
use enseada.Oauth.Response.{AuthorizationResponse}
use enseada.Oauth.Handler.{BasicAuth, signature}
use enseada.Oauth.Handler.Authorize
use enseada.Oauth.Handler.Revoke
use enseada.Oauth.Handler.Revoke.{denied}
use enseada.Oauth.Endpoints.{LoginFormBody, Redirect, do_login}
use enseada.Oauth.Request.{AuthorizationRequest}
use enseada.Oauth.Endpoints.Form
use enseada.Oauth.Endpoints.Form.{FormAnswer, form_asks_for_password}
use enseada.Oauth.Endpoints.Login.{Granted, login-Granted, login_redirects_anywhere}
use enseada.Users.Repository.{Codecs, list, list_rows, find, one_more}
use enseada.Users.Repository.Listing.{AtMost, list-IsPageOf}
use enseada.Users.Service.{User, as_entity, authenticate_user}
use enseada.Users.Service.Authentication.{authenticate_user_iff}
use enseada.Http.Session.{session_from_request}
use enseada.Http.User.{user_from_request}
use enseada.Http.User.Known.{Known, user_from_request_iff}
use enseada.Http.Session.Validity.{Authorized, session_from_request_iff}
use enseada.Examples.Demo.{
  demo, handler, shelf, Shelf, Raw, set, app, app_session, app_raw, read_scope,
}

session_from_request_iff_example :
    (session_from_request demo handler (some "abcd") none shelf ≡ (ok app_session, shelf))
    ↔ Authorized demo handler (some "abcd") none shelf app_session shelf
session_from_request_iff_example =
    session_from_request_iff demo handler (some "abcd") none shelf shelf app_session

abbrev late : Shelf
late = record shelf { clock = 20 }

abbrev stored_token : AccessToken demo
stored_token = record { token_rep = app_raw.token_rep; session = app_session; expiration = 10 }

-- Every document is the user ann.
abbrev ann : User
ann = record {
  id = record { partition = some "user"; id = "ann" };
  rev = some "1";
  password_hash = "pw";
}

abbrev row : String → RawDocResponse User
row k = record { id = k; key = k; rev = "1"; doc = ann }

abbrev three_rows : RowsResponse User
three_rows = record { total_rows = 5; offset = 0; rows = row "a" ∷ row "b" ∷ row "c" ∷ [] }

abbrev codecs : Codecs demo as_entity
codecs = record {
  document = record { encode = λ u. ""; decode = λ j. ok ann };
  rows = record { encode = λ r. ""; decode = λ j. ok three_rows };
  stored = record { encode = λ r. ""; decode = λ j. ok (record { ok = true; id = ""; rev = "1" }) };
  done = record { encode = λ r. ""; decode = λ j. ok tt };
}

abbrev db : Database
db = record { name = "users"; partitioned = true }

authenticate_user_iff_example :
    (authenticate_user demo codecs db "ann" "pw" shelf ≡ (ok ann, shelf)) ↔ (
      (find demo as_entity codecs db "ann" shelf ≡ (ok (some ann), shelf))
      × (demo.verify_encoded ann.password_hash "pw" ≡ ok true))
authenticate_user_iff_example = authenticate_user_iff demo codecs db "ann" "pw" ann shelf shelf

abbrev two_users : Page User
two_users = from_rows_response demo three_rows 2

-- At the greatest limit the sum wraps around.
greatest : one_more 18446744073709551615 ≡ 0
unfolding one_more
greatest = refl

at_most : AtMost demo as_entity codecs db 2 none shelf
unfolding enseada.Users.Service.user_guid Guid.partitioned enseada.Couch.Database.list_partitioned
    enseada.Couch.Database.fetch one_more
at_most res e = ground (arith, e)

listed : list demo as_entity codecs db 2 none shelf ≡ (ok two_users, shelf)
unfolding list one_more enseada.Users.Service.user_guid Guid.partitioned
    enseada.Couch.Database.list_partitioned from_rows_response
listed = refl

list-IsPageOf_example :
    (res : RowsResponse User) × ((list_rows demo as_entity codecs db
        (as_entity.build_guid "").partition
        (one_more 2)
        none
        shelf)
      ≡ (ok res, shelf))
    × IsPageOf demo 2 res two_users
list-IsPageOf_example =
    list-IsPageOf demo as_entity codecs db 2 none shelf shelf two_users at_most listed

abbrev other_raw : Raw
other_raw = record {
  token_rep = none;
  session = record { client_id = "other"; scope = read_scope; user_id = none };
  expiration = 10;
  related = "";
}

abbrev foreign : Shelf
foreign = record shelf { access = set "iiii" (some other_raw) (λ _. none) }

abbrev removal : RevocationRequest
removal = record { token = "abcd"; token_type_hint = none }

abbrev credentials : Option BasicAuth
credentials = some (record { username = "app"; password = some "secret" })

validated : Revoke.validate demo handler removal credentials foreign ≡ (ok app, foreign)
unfolding Revoke.validate enseada.Oauth.Handler.Introspect.validate_credentials
    enseada.Oauth.Handler.authenticate_client
validated = refl

abbrev login_form : String → LoginFormBody
login_form redirect_uri = record {
  username = "ann";
  password = "pw";
  auth_request = record {
    response_type = code;
    client_id = "app";
    redirect_uri = redirect_uri;
    scope = read_scope;
    state = none;
  };
}

login_redirects_anywhere_example :
    (do_login demo handler codecs db none (login_form "https://evil") none shelf).0
    ≡ ok (record {
      url = "https://evil";
      query = inl (OauthError.new invalid_redirect_uri "invalid redirect URI");
      user_id = none;
    })
unfolding enseada.Oauth.Scope.is_superset enseada.Prelude.Sets.has enseada.Prelude.Sets.superset
login_redirects_anywhere_example =
    login_redirects_anywhere demo handler codecs db none (login_form "https://evil") none shelf app
      "https://evil" refl refl refl refl

abbrev answer : AuthorizationResponse demo
answer = record {
  code = record {
    code = record { bytes = 7 ∷ [] };
    session = record { client_id = "app"; scope = read_scope; user_id = some "user:ann" };
    expiration = 10;
  };
  state = none;
}

abbrev redirected : Redirect demo
redirected = record { url = "https://app/cb"; query = inr answer; user_id = some "ann" }

logged_in :
    (do_login demo handler codecs db none (login_form "https://app/cb") none shelf).0
    ≡ ok redirected
unfolding do_login Authorize.validate enseada.Oauth.Handler.validate_client
    enseada.Oauth.Scope.is_superset enseada.Prelude.Sets.has enseada.Prelude.Sets.superset
    authenticate_user find enseada.Couch.Database.get enseada.Secure.verify_password
    Authorize.handle enseada.Secure.generate_token enseada.Oauth.Code.new Guid.to_string
logged_in = refl

abbrev after_login : Shelf
after_login = (do_login demo handler codecs db none (login_form "https://app/cb") none shelf).1

login-Granted_example :
    Granted demo handler codecs db none (login_form "https://app/cb") shelf redirected
login-Granted_example =
    login-Granted demo handler codecs db none (login_form "https://app/cb") none shelf after_login
      redirected answer (ap (λ r. (r, after_login)) logged_in) refl

user_from_request_iff_example :
    (user_from_request demo handler codecs db (some "abcd") none shelf ≡ (ok ann, shelf))
    ↔ Known demo handler codecs db (some "abcd") none shelf ann shelf
user_from_request_iff_example =
    user_from_request_iff demo handler codecs db (some "abcd") none shelf shelf ann

abbrev by_cookie : FormAnswer demo
by_cookie = FormAnswer.redirected redirected

abbrev form_request : AuthorizationRequest
form_request = (login_form "https://app/cb").auth_request

abbrev after_form : Shelf
after_form = (Form.login_form demo handler codecs db (some "ann") form_request none shelf).1

form_redirects :
    Form.login_form demo handler codecs db (some "ann") form_request none shelf
    ≡ (ok by_cookie, after_form)
unfolding Form.login_form do_login Authorize.validate enseada.Oauth.Handler.validate_client
    enseada.Oauth.Scope.is_superset enseada.Prelude.Sets.has enseada.Prelude.Sets.superset
    authenticate_user find enseada.Couch.Database.get enseada.Secure.verify_password
    Authorize.handle enseada.Secure.generate_token enseada.Oauth.Code.new Guid.to_string
form_redirects = refl

form_asks_for_password_example :
    (username : String) × (user : User) × (v : Shelf) × (some "ann" ≡ some username)
    × ((find demo as_entity codecs db username v).0 ≡ ok (some user))
form_asks_for_password_example =
    form_asks_for_password demo handler codecs db (some "ann") form_request none shelf after_form
      redirected form_redirects
