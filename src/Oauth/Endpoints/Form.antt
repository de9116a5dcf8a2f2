-- ===== src/Oauth/Endpoints/Form.antt =====
-- server/src/oauth/routes/oauth.rs: the page that asks for a user's name and password, and the answers
-- to requests of authorization and of tokens that do not parse.
use Prim.Native.String.{String, find as position, len}
use enseada.Prelude.{
  Bool, true, false, Option, none, some, List, [], ◌∷◌, ◌≡◌, leb, ◌==◌, if◌then◌else◌, inl, inr,
  arith, Option-cases,
}
use enseada.Prelude.Exec.{ok, err, panic, Exec, pure, map_err, ok_of_bind, ◌>>=◌, ◌>>◌}
use enseada.Platform.{Platform}
use enseada.Couch.Database.{Database}
use enseada.Oauth.Error
use enseada.Oauth.Error.{Error, invalid_request}
use enseada.Oauth.Scope
use enseada.Oauth.Request.{ResponseType, code, AuthorizationRequest}
use enseada.Oauth.Handler.{BasicAuth, OAuthHandler}
use enseada.Oauth.Handler.Authorize
use enseada.Oauth.Endpoints.{LoginFormBody, Redirect, attempt, do_login}
use enseada.Users.Repository.{Codecs, find}
use enseada.Users.Service.{User, as_entity}
use enseada.Http.Errors.{ApiError, from_couch}

-- The texts that server/src/templates/oauth.rs puts into the page.
pub record LoginForm : Type 0 where
  pub response_type : String
  pub client_id : String
  pub redirect_uri : String
  pub scope : String
  pub state : String

-- ResponseType::to_string
unfoldable pub response_type_name : ResponseType → String
response_type_name code = "code"

abbrev or_empty : Option String → String
or_empty none = ""
or_empty (some state) = state

unfoldable pub login_page : AuthorizationRequest → LoginForm
unfolding response_type_name
login_page auth = record {
  response_type = response_type_name auth.response_type;
  client_id = auth.client_id;
  redirect_uri = auth.redirect_uri;
  scope = Scope.to_string auth.scope;
  state = or_empty auth.state;
}

module _ (p : Platform) where
  open p use {World, Url, parse_url}

  -- The answer of a login, or the page, with whether the cookie's user id is removed.
  pub data FormAnswer : Type 0 where
    redirected : Redirect p → FormAnswer
    page : LoginForm → Bool → FormAnswer

  -- What a request for authorization that does not parse is answered with.
  pub data QueryAnswer : Type 0 where
    invalid_redirect : QueryAnswer
    error_to : Url → Error → QueryAnswer

  abbrev contains : String → String → Bool
  contains text part = leb (position text part) (len text)

  abbrev value_of : String → List (String × String) → Option String
  value_of name [] = none
  value_of name ((key, value) ∷ rest) =
      let found = value_of name rest in if key == name then some value else found

  abbrev url_of : Option String → Option Url
  url_of none = none
  url_of (some text) = elim (parse_url text) [ ok url ↦ some url | err e ↦ none | panic ↦ none ]

  abbrev answer_to : Option Url → Error → QueryAnswer
  answer_to none e = invalid_redirect
  answer_to (some url) e = error_to url e

  -- handle_query_error, with the text of the error, the text of its cause, and the pairs of the
  -- query, empty if they do not parse.
  unfoldable pub handle_query_error : String → String → List (String × String) → QueryAnswer
  handle_query_error detail cause pairs =
      if contains detail "redirect_uri"
      then invalid_redirect
      else answer_to (url_of (value_of "redirect_uri" pairs)) (Error.new invalid_request cause)

  module _ (h : OAuthHandler p) (c : Codecs p as_entity) (db : Database) where
    abbrev cookie_user : Option String → Exec World ApiError (Option User)
    cookie_user none = pure none
    cookie_user (some username) = map_err from_couch (find p as_entity c db username)

    abbrev without_password : AuthorizationRequest → LoginFormBody
    without_password auth = record { username = ""; password = ""; auth_request = auth }

    abbrev is_some : Option String → Bool
    is_some none = false
    is_some (some username) = true

    -- The user that the cookie names goes on to the login, without a password; for anyone else there
    -- is the page.
    unfoldable pub show_form :
        Option String
        → AuthorizationRequest
        → Option BasicAuth
        → Option User
        → Exec World ApiError FormAnswer
    unfolding login_page
    show_form cookie auth client_auth (some user) = do
      answer ← do_login p h c db cookie (without_password auth) client_auth
      pure (redirected answer)
    show_form cookie auth client_auth none = pure (page (login_page auth) (is_some cookie))

    -- The result of the validation is only logged.
    unfoldable pub login_form :
        Option String → AuthorizationRequest → Option BasicAuth → Exec World ApiError FormAnswer
    unfolding show_form
    login_form cookie auth client_auth = do
      attempt (Authorize.validate p h auth client_auth)
      found ← cookie_user cookie
      show_form cookie auth client_auth found

    -- A request for the login page that parses is redirected only if its cookie names a user who was
    -- found.
    pub form_asks_for_password :
        (cookie : Option String) (auth : AuthorizationRequest) (client_auth : Option BasicAuth)
        (w w' : World) (answer : Redirect p)
        → login_form cookie auth client_auth w ≡ (ok (redirected answer), w')
        → (username : String) × (user : User) × (v : World) × (cookie ≡ some username)
          × ((find p as_entity c db username v).0 ≡ ok (some user))
    unfolding login_form
    form_asks_for_password cookie auth client_auth w w' answer e =
        let (_, v, validated, rest) =
          ok_of_bind (attempt (Authorize.validate p h auth client_auth)) _ (redirected answer) w w'
            e in
        let (found, x, looked, rest2) =
          ok_of_bind (cookie_user cookie) _ (redirected answer) v w' rest in
        elim (Option-cases found) [
          | inl nobody ↦ absurd (unfold show_form in ground arith)
          | inr (user, there) ↦ elim (Option-cases cookie) [
            | inl no_cookie ↦ absurd (ground arith)
            | inr (username, named) ↦ (username, user, v, named, ground arith)
          ]
        ]
