-- ===== src/Examples/Stored.antt =====
-- The theorems about the storages of the database at concrete inputs.
use enseada.Prelude.{
  ℕ, suc, ◌+◌, ◌-◌, String, Bool, true, false, Option, none, some, List, [], ◌∷◌, ◌≡◌, ◌≢◌, refl,
  sym, ap, ◌∙◌, subst, arith, inl, inr, ltb, ◌==◌, eq_iff, eq_refl, if◌then◌else◌, append,
  Bool-cases, Option-cases, length, ◌≤◌,
}
use enseada.Prelude.Text.{contains, after, after-append}
use enseada.Prelude.Exec.{ok, err}
use enseada.Platform.{pos}
use enseada.Guid
use enseada.Guid.{Guid}
use enseada.Couch
use enseada.Couch.Error.{TransportError}
use enseada.Couch.Database.{Database, Codec, path, get, fetch, found}
use enseada.Oauth.Persistence.Laws.{OwnIds, stored_handler}
use enseada.Oauth.Persistence.SingleUse.{stored_refresh_single_use, stored_code_single_use}
use enseada.Guid.RoundTrip.{to_string-from}
use enseada.Oauth.Error
use enseada.Oauth.Error.{invalid_grant}
use enseada.Oauth.Client.{Client}
use enseada.Oauth.Request.{CodeGrant, RefreshGrant}
use enseada.Oauth.Response.{TokenResponse, bearer}
use enseada.Oauth.Persistence.{Codecs}
use enseada.Oauth.Persistence.Entities.{RefreshTokenEntity, AuthorizationCodeEntity}
use enseada.Oauth.Handler.Exchange.{handle_code, handle_refresh}
use enseada.Examples.Store.{slash, after_slash}
use enseada.Examples.Demo.{app_session, read_scope}
use enseada.Oauth.Persistence
use enseada.Oauth.Persistence.{cursor_text, list_clients}
use enseada.Oauth.Persistence.Entities.{from_client, to_client}
use enseada.Oauth.Persistence.Clients.{
  reread, with_scope_read, to_client-reread, AtMost, list_clients_one_page,
}
use enseada.Oauth.Handler.{BasicAuth, signature}
use enseada.Oauth.Handler.Exchange.{validate_code, validate_refresh, invalid_code}
use enseada.Oauth.Handler.Exchange.Rotation.{NewTokens}
use enseada.Oauth.Handler.{OAuthHandler}
use enseada.Pagination.{Page, from_rows_response}
use enseada.Examples.Documents.{couch, codecs, clients, app, Document, Documents, set, laws}

abbrev db : Database
db = record { name = "oauth"; partitioned = true }

id_of_path : (id : String) → Guid.to_string (Guid.from (after slash (path db id))) ≡ id
unfolding contains
id_of_path id = to_string-from (after slash (path db id)) ∙ after_slash db id refl

refresh_own :
    (id : String) (w : Documents) (e : RefreshTokenEntity couch)
    → (get couch codecs.refresh db id w).0 ≡ ok (some e)
    → Guid.to_string e.id ≡ id
unfolding get fetch
refresh_own id w e h = elim (Option-cases (w.docs (path db id))) [
  | inl nothing ↦ absurd (ground arith)
  | inr (d, there) ↦
      let same : e.id ≡ Guid.from (after slash (path db id)) = ground arith in
      ap Guid.to_string same ∙ id_of_path id
]

code_own :
    (id : String) (w : Documents) (e : AuthorizationCodeEntity couch)
    → (get couch codecs.code db id w).0 ≡ ok (some e)
    → Guid.to_string e.id ≡ id
unfolding get fetch
code_own id w e h = elim (Option-cases (w.docs (path db id))) [
  | inl nothing ↦ absurd (ground arith)
  | inr (d, there) ↦
      let same : e.id ≡ Guid.from (after slash (path db id)) = ground arith in
      ap Guid.to_string same ∙ id_of_path id
]

abbrev ids : OwnIds couch codecs db
ids = record { refresh_id = refresh_own; code_id = code_own }

-- One code and one refresh token with its access token, for the same session.
abbrev document : String → String → Document
document id related = record {
  id = Guid.from id;
  rev = some "1";
  session = app_session;
  expiration = 10;
  related = related;
}

abbrev shelf : Documents
shelf = record {
  clock = 5;
  drawn = 7;
  docs =
      set "oauth/access_token:iii" (some (document "access_token:iii" "iiii"))
        (set "oauth/code:ii" (some (document "code:ii" "")) (λ _. none));
}

abbrev code_grant : CodeGrant
code_grant = record { code = "ab"; redirect_uri = "app:"; client_id = none; client_secret = none }

abbrev refresh_grant : RefreshGrant
refresh_grant = record {
  refresh_token = "abc";
  scope = none;
  client_id = some "app";
  client_secret = some "secret";
}

abbrev issued : TokenResponse couch
issued = record {
  access_token = "iiiiiii";
  token_type = bearer;
  expires_in = pos 5;
  refresh_token = some "iiiiiiii";
  scope = read_scope;
  extra = [];
}

exchanged :
    (handle_code couch (stored_handler couch codecs db clients) code_grant shelf).0 ≡ ok issued
unfolding handle_code enseada.Oauth.Persistence.get_code enseada.Oauth.Persistence.revoke_code
    enseada.Oauth.Persistence.remove_code enseada.Oauth.Persistence.Entities.code_guid
    enseada.Oauth.Persistence.Entities.to_empty_code enseada.Oauth.Code.new
    enseada.Oauth.Handler.signature enseada.Oauth.Handler.generate_token_set
    enseada.Oauth.Handler.issue_access enseada.Oauth.Handler.store_access
    enseada.Oauth.Handler.complete_token_set enseada.Oauth.Handler.issue_refresh
    enseada.Oauth.Handler.store_refresh enseada.Oauth.Handler.respond_with
    enseada.Oauth.Persistence.store_access enseada.Oauth.Persistence.store_refresh
    enseada.Oauth.Persistence.Entities.from_access enseada.Oauth.Persistence.Entities.from_refresh
    enseada.Oauth.Persistence.Entities.to_access enseada.Oauth.Persistence.Entities.to_refresh
    enseada.Oauth.Persistence.Entities.access_guid enseada.Oauth.Persistence.Entities.refresh_guid
    enseada.Oauth.AccessToken.new enseada.Oauth.AccessToken.to_string
    enseada.Oauth.AccessToken.token enseada.Oauth.AccessToken.expires_in
    enseada.Oauth.RefreshToken.new enseada.Oauth.RefreshToken.to_string
    enseada.Oauth.RefreshToken.token enseada.Oauth.RefreshToken.is_expired
    enseada.Secure.generate_token enseada.Secure.generate_signature enseada.Secure.new
    enseada.Secure.empty enseada.Secure.to_string get fetch enseada.Couch.Database.put
    enseada.Couch.Database.delete contains after enseada.Prelude.Text.before Guid.to_string
    Guid.from
exchanged = refl

refreshed :
    (handle_refresh couch (stored_handler couch codecs db clients) refresh_grant shelf).0
    ≡ ok issued
unfolding handle_refresh enseada.Oauth.Persistence.get_refresh
    enseada.Oauth.Persistence.revoke_refresh enseada.Oauth.Persistence.remove_refresh
    enseada.Oauth.Persistence.revoke_access enseada.Oauth.Persistence.remove_access
    enseada.Oauth.Persistence.Entities.to_empty_refresh enseada.Oauth.Code.new Couch.Error.from
    enseada.Oauth.Persistence.map_couch_err Error.new enseada.Oauth.Handler.signature
    enseada.Oauth.Handler.generate_token_set enseada.Oauth.Handler.issue_access
    enseada.Oauth.Handler.store_access enseada.Oauth.Handler.complete_token_set
    enseada.Oauth.Handler.issue_refresh enseada.Oauth.Handler.store_refresh
    enseada.Oauth.Handler.respond_with enseada.Oauth.Persistence.store_access
    enseada.Oauth.Persistence.store_refresh enseada.Oauth.Persistence.Entities.from_access
    enseada.Oauth.Persistence.Entities.from_refresh enseada.Oauth.Persistence.Entities.to_access
    enseada.Oauth.Persistence.Entities.to_refresh enseada.Oauth.Persistence.Entities.access_guid
    enseada.Oauth.Persistence.Entities.refresh_guid enseada.Oauth.AccessToken.new
    enseada.Oauth.AccessToken.to_string enseada.Oauth.AccessToken.token
    enseada.Oauth.AccessToken.expires_in enseada.Oauth.RefreshToken.new
    enseada.Oauth.RefreshToken.to_string enseada.Oauth.RefreshToken.token
    enseada.Oauth.RefreshToken.is_expired enseada.Secure.generate_token
    enseada.Secure.generate_signature enseada.Secure.new enseada.Secure.empty
    enseada.Secure.to_string get fetch enseada.Couch.Database.put enseada.Couch.Database.delete
    contains after enseada.Prelude.Text.before Guid.to_string Guid.from
refreshed = refl

abbrev stored : OAuthHandler couch
stored = stored_handler couch codecs db clients

abbrev after_code : Documents
after_code = (handle_code couch stored code_grant shelf).1

stored_code_single_use_example :
    (validate_code couch stored code_grant none after_code ≢ (ok app, after_code))
    × ((handle_code couch stored code_grant after_code).0 ≡ err invalid_code)
stored_code_single_use_example =
    stored_code_single_use couch codecs db clients laws ids code_grant code_grant none shelf
      after_code after_code issued app (ap (λ r. (r, after_code)) exchanged) refl

signature_differs :
    (s : String) → (signature couch s == "iii") ≡ false → signature couch s ≢ signature couch "abc"
unfolding signature enseada.Secure.generate_signature enseada.Secure.new enseada.Secure.to_string
signature_differs s other same = ground (arith, (eq_iff (signature couch s) "iii").1 same)

issued-NewTokens : NewTokens couch stored issued (signature couch "abc")
unfolding signature enseada.Secure.generate_signature enseada.Secure.new enseada.Secure.to_string
issued-NewTokens = (
  signature_differs "iiiiiii" refl,
  λ t e.
      subst (λ x. signature couch x ≢ signature couch "abc") {x = "iiiiiiii"} (ground (arith, e))
        (signature_differs "iiiiiiii" refl),
)

abbrev after_refresh : Documents
after_refresh = (handle_refresh couch stored refresh_grant shelf).1

stored_refresh_single_use_example :
    (validate_refresh couch stored refresh_grant none after_refresh ≢ (ok app, after_refresh))
    × ((handle_refresh couch stored refresh_grant after_refresh).0
        ≡ err (Error.new invalid_grant "invalid refresh token"))
stored_refresh_single_use_example =
    stored_refresh_single_use couch codecs db clients laws ids refresh_grant refresh_grant none
      shelf after_refresh after_refresh issued app (ap (λ r. (r, after_refresh)) refreshed)
      issued-NewTokens refl

to_client-reread_example :
    to_client couch (reread couch (from_client couch app)) ≡ some (with_scope_read couch app)
to_client-reread_example = to_client-reread couch app

abbrev no_clients : Page (Client couch)
no_clients = record { count = 0; next_cursor = none; items = [] }

at_most : AtMost couch codecs db 2 none shelf
unfolding enseada.Couch.Database.list_partitioned fetch
at_most res e = ground (arith, e)

listed : list_clients couch codecs db 2 none shelf ≡ (ok no_clients, shelf)
unfolding list_clients enseada.Couch.Database.list_partitioned from_rows_response fetch
listed = refl

list_clients_one_page_example : no_clients.next_cursor ≡ none
list_clients_one_page_example =
    list_clients_one_page couch codecs db 2 none shelf shelf no_clients at_most listed
