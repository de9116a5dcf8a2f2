-- ===== src/Http/User.antt =====
-- `CurrentUser` of server/src/http/extractor/user.rs: the user that a request is made for.
pub mod Known
use enseada.Prelude.{String, Option}
use enseada.Prelude.Exec.{Exec, ok_or, map_err, ◌>>=◌}
use enseada.Platform.{Platform}
use enseada.Guid
use enseada.Couch.Database.{Database}
use enseada.Oauth.Handler.{BasicAuth, OAuthHandler}
use enseada.Users.Repository.{Codecs, find}
use enseada.Users.Service.{User, as_entity}
use enseada.Http.Errors.{ApiError, no_session, from_couch}
use enseada.Http.Session.{session_from_request}

module _ (p : Platform) (h : OAuthHandler p) (c : Codecs p as_entity) (db : Database) where
  -- CurrentUser::from_request; the user is looked for by the id of the session's user, without its
  -- partition.
  unfoldable pub user_from_request : Option String → Option BasicAuth → Exec p.World ApiError User
  user_from_request bearer basic = do
    session ← session_from_request p h bearer basic
    username ← ok_or no_session session.user_id
    found ← map_err from_couch (find p as_entity c db (Guid.from username).id)
    ok_or no_session found
