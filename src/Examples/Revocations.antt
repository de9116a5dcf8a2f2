-- ===== src/Examples/Revocations.antt =====
-- The theorem about revoked access tokens, at a concrete input.
use enseada.Prelude.{
  String, append, true, some, none, ◌≡◌, refl, ap, ◌∙◌, arith, inl, inr, Option-cases, [], ◌∷◌,
}
use enseada.Prelude.Text.{contains, after}
use enseada.Prelude.Exec.{ok, err}
use enseada.Guid
use enseada.Guid.RoundTrip.{to_string-from}
use enseada.Couch
use enseada.Couch.Database.{Codec, Database, path, fetch}
use enseada.Oauth.AccessToken.{AccessToken}
use enseada.Oauth.Handler.{signature}
use enseada.Oauth.Handler.Revoke
use enseada.Oauth.Persistence
use enseada.Oauth.Persistence.Laws.{stored_handler}
use enseada.Oauth.Persistence.Entities.{access_guid}
use enseada.Users.Repository
use enseada.Users.Service.{as_entity}
use enseada.Http.Errors.{no_session}
use enseada.Http.Session.{session_from_request, scope_from_request, token_of}
use enseada.Http.Session.Revoked.{OwnAccessIds, revoked_token_refused}
use enseada.Http.User.{user_from_request}
use enseada.Examples.Demo.{app_session}
use enseada.Examples.Store.{slash, after_slash}
use enseada.Examples.Documents.{Documents, couch, clients, codecs, laws, blank, set}
use enseada.Examples.Directory.{ann, users_db}

abbrev db : Database
db = record { name = "oauth"; partitioned = true }

abbrev given : {A : Type 0} → A → Codec couch A
given a = record { encode = λ x. blank; decode = λ json. ok a }

abbrev users : Repository.Codecs couch as_entity
users = record {
  document = given ann;
  rows = given (record { offset = 0; rows = []; total_rows = 0 });
  stored = given (record { ok = true; id = ""; rev = "1" });
  done = given tt;
}

abbrev shelf : Documents
shelf = record {
  clock = 5;
  drawn = 7;
  docs =
      set "oauth/access_token:iii"
        (some (record {
          id = Guid.from "access_token:iii";
          rev = some "1";
          session = app_session;
          expiration = 10;
          related = "";
        }))
        (λ _. none);
}

abbrev token : AccessToken couch
token = record { token_rep = none; session = app_session; expiration = 10 }

abbrev revoked : Documents
revoked =
    (Revoke.revoke_access couch (stored_handler couch codecs db clients) "app"
      (signature couch "abc") token shelf).1

own : OwnAccessIds couch codecs db clients
unfolding Couch.Database.get fetch access_guid contains
own sig w entity h = elim (Option-cases (w.docs (path db (Guid.to_string (access_guid sig))))) [
  | inl nothing ↦ absurd (ground arith)
  | inr (d, there) ↦
      let same : entity.id ≡ Guid.from (after slash (path db (Guid.to_string (access_guid sig)))) =
        ground arith in
      same
      ∙ ap Guid.from (after_slash db (Guid.to_string (access_guid sig)) refl)
      ∙ ap Guid.from (to_string-from (append "access_token:" sig))
]

revokes :
    Revoke.revoke_access couch
      (stored_handler couch codecs db clients)
      "app"
      (signature couch "abc")
      token
      shelf
    ≡ (ok tt, revoked)
unfolding Revoke.revoke_access Persistence.revoke_access Persistence.remove_access access_guid
    signature enseada.Secure.generate_signature enseada.Secure.new enseada.Secure.to_string
    Couch.Database.get fetch Couch.Database.delete contains after enseada.Prelude.Text.before
    Guid.to_string Guid.from
revokes = refl

revoked_token_refused_example :
    ((session_from_request couch
        (stored_handler couch codecs db clients)
        (some "abc")
        none
        revoked).0
      ≡ err no_session)
    × ((scope_from_request couch
          (stored_handler couch codecs db clients)
          (some "abc")
          none
          revoked).0
        ≡ err no_session)
    × ((user_from_request couch
          (stored_handler couch codecs db clients)
          users
          users_db
          (some "abc")
          none
          revoked).0
        ≡ err no_session)
unfolding token_of
revoked_token_refused_example =
    revoked_token_refused couch codecs db clients users users_db "app" "abc" token (some "abc") none
      shelf revoked laws own revokes refl
