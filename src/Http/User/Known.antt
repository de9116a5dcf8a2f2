-- ===== src/Http/User/Known.antt =====
-- Which requests have a user.
use enseada.Prelude.{String, Option, some, ◌≡◌, ◌↔◌, arith, inl, inr, Option-cases}
use enseada.Prelude.Exec.{Outcome-cases, ok}
use enseada.Platform.{Platform}
use enseada.Guid
use enseada.Couch.Database.{Database}
use enseada.Oauth.Session.{Session}
use enseada.Oauth.Handler.{BasicAuth, OAuthHandler}
use enseada.Users.Repository.{Codecs, find}
use enseada.Users.Service.{User, as_entity}
use enseada.Http.Session.{session_from_request}
use enseada.Http.User.{user_from_request}

module _ (p : Platform) (h : OAuthHandler p) (c : Codecs p as_entity) (db : Database) where
  -- The request has a session of a user, whose document is found.
  pub record Known (bearer : Option String) (basic : Option BasicAuth) (w : p.World) (user : User)
      (w' : p.World) : Type 0 where
    pub session : Session
    pub between : p.World
    pub authorized : session_from_request p h bearer basic w ≡ (ok session, between)
    pub name : String
    pub named : session.user_id ≡ some name
    pub stored : find p as_entity c db (Guid.from name).id between ≡ (ok (some user), w')

  -- A request is given a user, in a world after it, exactly if it has a session, the session has a
  -- user, and that user's document is found; that world is the one after the look-ups.
  pub user_from_request_iff :
      (bearer : Option String) (basic : Option BasicAuth) (w w' : p.World) (user : User)
      → (user_from_request p h c db bearer basic w ≡ (ok user, w')) ↔ Known bearer basic w user w'
  unfolding user_from_request
  user_from_request_iff bearer basic w w' user = (there, back)
    where
      there :
          user_from_request p h c db bearer basic w ≡ (ok user, w') → Known bearer basic w user w'
      there e = elim (Outcome-cases (session_from_request p h bearer basic w).0) [
        | inr (inl (x, refused)) ↦ absurd (ground arith)
        | inr (inr panics) ↦ absurd (ground arith)
        | inl (session, authorized) ↦ elim (Option-cases session.user_id) [
          | inl nobody ↦ absurd (ground arith)
          | inr (name, named) ↦ record {
            session = session;
            between = (session_from_request p h bearer basic w).1;
            authorized = ground arith;
            name = name;
            named = named;
            stored = ground arith;
          }
        ]
      ]

      back :
          Known bearer basic w user w' → user_from_request p h c db bearer basic w ≡ (ok user, w')
      back k = ground (arith, k.authorized, k.named, k.stored)
