-- ===== src/Examples/Exchanges.antt =====
-- The theorems about exchanges of codes and refresh tokens at concrete inputs.
use enseada.Prelude.{
  String, false, Option, some, none, [], ◌∷◌, ◌≡◌, ◌≢◌, refl, ◌↔◌, sym, ap, subst, arith, eq_iff,
  eq_refl, ◌==◌, Bool-cases, inl, inr,
}
use enseada.Prelude.Exec.{Outcome, ok}
use enseada.Platform.{pos}
use enseada.Secure
use enseada.Secure.{SecureSecret}
use enseada.Oauth.Error.{Error}
use enseada.Oauth.AccessToken
use enseada.Oauth.RefreshToken
use enseada.Oauth.AccessToken.{AccessToken}
use enseada.Oauth.RefreshToken.{RefreshToken}
use enseada.Oauth.Request.{CodeGrant, RefreshGrant}
use enseada.Oauth.Response.{TokenResponse, bearer}
use enseada.Oauth.Handler.{
  BasicAuth, signature, authenticate_client, validate_client, generate_token_set,
}
use enseada.Oauth.Handler.Clients.{
  Authentic, authenticate_client_iff, Accepted, validate_client_iff,
}
use enseada.Oauth.Handler.Exchange.{validate_code, validate_refresh, handle_code, handle_refresh}
use enseada.Oauth.Handler.Exchange.Validation.{MayRedeem, validate_code_iff}
use enseada.Oauth.Handler.Exchange.Refresh.{MayRefresh, validate_refresh_iff}
use enseada.Oauth.Handler.Exchange.SingleUse.{CodeLaws, refresh_ignores_scope}
use enseada.Oauth.Handler.Exchange.Rotation.{AbsenceLaws, NewTokens}
use enseada.Examples.Demo.{
  demo, handler, codes, shelf, Shelf, Raw, set, app, app_session, read_scope,
}

abbrev credentials : Option BasicAuth
credentials = some (record { username = "app"; password = some "secret" })

authenticate_client_iff_example :
    (authenticate_client demo app (some "secret") ≡ ok tt) ↔ Authentic demo app (some "secret")
authenticate_client_iff_example = authenticate_client_iff demo app (some "secret")

validate_client_iff_example :
    (validate_client demo handler "app" (some "https://app/cb") read_scope shelf ≡ (ok app, shelf))
    ↔ (Accepted demo handler "app" (some "https://app/cb") read_scope shelf app
        × ((handler.client_storage.get_client "app" shelf).1 ≡ shelf))
validate_client_iff_example =
    validate_client_iff demo handler "app" (some "https://app/cb") read_scope shelf shelf app

abbrev code_grant : CodeGrant
code_grant = record {
  code = "ab";
  redirect_uri = "https://app/cb";
  client_id = none;
  client_secret = none;
}

validate_code_iff_example :
    (validate_code demo handler code_grant credentials shelf ≡ (ok app, shelf))
    ↔ MayRedeem demo handler code_grant credentials shelf app shelf
validate_code_iff_example = validate_code_iff demo handler code_grant credentials shelf app shelf

abbrev refresh_grant : RefreshGrant
refresh_grant = record {
  refresh_token = "abc";
  scope = none;
  client_id = some "app";
  client_secret = some "secret";
}

validate_refresh_iff_example :
    (validate_refresh demo handler refresh_grant none shelf ≡ (ok app, shelf))
    ↔ MayRefresh demo handler refresh_grant none shelf app shelf
validate_refresh_iff_example = validate_refresh_iff demo handler refresh_grant none shelf app shelf

set-none : (k : String) (m : String → Option Raw) → set k none m k ≡ none
set-none k m = ground (arith, eq_refl k)

set-other :
    (k j : String) (r : Option Raw) (m : String → Option Raw)
    → k ≢ j
    → m j ≡ none
    → set k r m j ≡ none
set-other k j r m differs e = elim (Bool-cases (j == k)) [
  | inl same ↦ absurd (differs (sym ((eq_iff j k).0 same)))
  | inr other ↦ ground (arith)
]

code_of_none : (sig : String) (w : Shelf) → w.codes sig ≡ none → (codes.get_code sig w).0 ≡ none
code_of_none sig w e = rw e

abbrev refresh_abc : RefreshToken demo
refresh_abc = record {
  token_rep = some (record { bytes = 3 ∷ [] });
  session = app_session;
  expiration = 10;
  related_access_token_signature = "iiii";
}

abbrev code_laws : CodeLaws demo handler
code_laws = record {
  revoked_absent = λ sig w w' e.
      code_of_none sig w'
        (subst (λ (x : Shelf). x.codes sig ≡ none) (ap (λ r. r.1) e) (set-none sig w.codes));
}

abbrev issued : TokenResponse demo
issued = record {
  access_token = "iiiiiii";
  token_type = bearer;
  expires_in = pos 5;
  refresh_token = some "iiiiiiii";
  scope = read_scope;
  extra = [];
}

exchanged : (handle_code demo handler code_grant shelf).0 ≡ ok issued
unfolding handle_code signature generate_token_set enseada.Oauth.Handler.issue_access
    Secure.generate_token enseada.Oauth.Handler.store_access
    enseada.Oauth.Handler.complete_token_set enseada.Oauth.Handler.issue_refresh
    enseada.Oauth.Handler.store_refresh enseada.Oauth.Handler.respond_with
    enseada.Oauth.AccessToken.to_string enseada.Oauth.AccessToken.expires_in
    enseada.Oauth.RefreshToken.to_string enseada.Oauth.AccessToken.new
    enseada.Oauth.RefreshToken.new
exchanged = refl

abbrev after_code : Shelf
after_code = (handle_code demo handler code_grant shelf).1

refreshed : (handle_refresh demo handler refresh_grant shelf).0 ≡ ok issued
unfolding handle_refresh signature generate_token_set enseada.Oauth.Handler.issue_access
    Secure.generate_token enseada.Oauth.Handler.store_access
    enseada.Oauth.Handler.complete_token_set enseada.Oauth.Handler.issue_refresh
    enseada.Oauth.Handler.store_refresh enseada.Oauth.Handler.respond_with
    enseada.Oauth.AccessToken.to_string enseada.Oauth.AccessToken.expires_in
    enseada.Oauth.RefreshToken.to_string enseada.Oauth.AccessToken.new
    enseada.Oauth.RefreshToken.new enseada.Oauth.RefreshToken.is_expired
refreshed = refl

abbrev after_refresh : Shelf
after_refresh = (handle_refresh demo handler refresh_grant shelf).1

stored_refresh :
    (handler.refresh_token_storage.get_token (signature demo "abc") shelf).0 ≡ some refresh_abc
unfolding signature Secure.generate_signature Secure.new Secure.to_string
stored_refresh = refl

refresh_ignores_scope_example : issued.scope ≡ app_session.scope
refresh_ignores_scope_example =
    refresh_ignores_scope demo handler refresh_grant refresh_abc shelf after_refresh issued
      stored_refresh (ap (λ r. (r, after_refresh)) refreshed)

returned : {A : Type 0} (t t' : A) → ◌≡◌ {A = Outcome Error A} (ok t) (ok t') → t' ≡ t
returned t t' e = ground arith

abbrev absence_laws : AbsenceLaws demo handler
absence_laws = record {
  Absent = λ w sig. w.refresh sig ≡ none;
  not_found = λ sig w absent. rw absent;
  revoked = λ sig w w' e.
      subst (λ (x : Shelf). x.refresh sig ≡ none) (ap (λ r. r.1) e) (set-none sig w.refresh);
  after_clock = λ sig w absent. absent;
  after_fill = λ sig n w absent. absent;
  after_access_revoked = λ sig other w absent. absent;
  after_access_stored = λ sig other t w differs absent. absent;
  access_returned = λ sig t t' w e. ap (AccessToken.to_string demo) (returned t t' e);
  after_refresh_stored =
      λ sig other t w differs absent. set-other other sig _ w.refresh differs absent;
  refresh_returned = λ sig t t' w e. ap (RefreshToken.to_string demo) (returned t t' e);
}

signature_differs :
    (s : String) → (signature demo s == "iii") ≡ false → signature demo s ≢ signature demo "abc"
unfolding signature Secure.generate_signature Secure.new Secure.to_string
signature_differs s other same = ground (arith, (eq_iff (signature demo s) "iii").1 same)

first_differs : signature demo "iiiiiii" ≢ signature demo "abc"
unfolding signature Secure.generate_signature Secure.new Secure.to_string
first_differs = signature_differs "iiiiiii" refl

second_differs : signature demo "iiiiiiii" ≢ signature demo "abc"
unfolding signature Secure.generate_signature Secure.new Secure.to_string
second_differs = signature_differs "iiiiiiii" refl

issued-NewTokens : NewTokens demo handler issued (signature demo "abc")
issued-NewTokens = (
  first_differs,
  λ t e. subst (λ x. signature demo x ≢ signature demo "abc") (ground (arith, e)) second_differs,
)
