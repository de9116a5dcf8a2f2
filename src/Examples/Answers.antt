-- ===== src/Examples/Answers.antt =====
-- The theorems about introspections and revocations at concrete inputs.
use enseada.Prelude.{some, none, ◌≡◌, refl, arith, eq_iff}
use enseada.Prelude.Exec.{err}
use enseada.Secure
use enseada.Secure.{generate_signature}
use enseada.Oauth.Session.{Session}
use enseada.Oauth.Token.{TokenTypeHint}
use enseada.Oauth.Request.{IntrospectionRequest, RevocationRequest}
use enseada.Oauth.Handler.{signature}
use enseada.Oauth.Handler.Introspect
use enseada.Oauth.Handler.Introspect.Answers.{Sound, handle-Sound}
use enseada.Oauth.Handler.Revoke
use enseada.Oauth.Handler.Revoke.{denied}
use enseada.Oauth.Handler.Revoke.Ownership.{target, revoke_only_own}
use enseada.Examples.Demo.{demo, handler, shelf, app_session, read_scope}

abbrev question : IntrospectionRequest
question = record { token = "abc"; token_type_hint = some TokenTypeHint.access_token }

handle-Sound_example :
    Sound demo handler (signature demo "abc") (Introspect.handle demo handler question shelf).0
handle-Sound_example = handle-Sound demo handler question shelf

abbrev other_session : Session
other_session = record { client_id = "other"; scope = read_scope; user_id = none }

abbrev removal : RevocationRequest
removal = record { token = "abc"; token_type_hint = some TokenTypeHint.refresh_token }

revoke_only_own_example :
    Revoke.handle demo handler removal other_session shelf
    ≡ (err denied, (target demo handler removal.token_type_hint (signature demo "abc") shelf).1)
unfolding target signature generate_signature Secure.new Secure.to_string
revoke_only_own_example =
    revoke_only_own demo handler removal other_session app_session shelf refl
      (λ e. ground (arith, (eq_iff "app" "other").1 e))

abbrev missing : RevocationRequest
missing = record { token = "a"; token_type_hint = none }
