-- ===== src/Oauth/Session.antt =====
-- server/src/oauth/session.rs
use enseada.Prelude.{String, Option, none, some, []}
use enseada.Oauth.Scope.{Scope}

pub record Session : Type 0 where
  pub client_id : String
  pub scope : Scope
  pub user_id : Option String

-- The scope and the user are the defaults: no name, and no user.
unfoldable pub for_client : String → Session
for_client client_id = record {
  client_id = client_id;
  scope = record { names = [] };
  user_id = none;
}

unfoldable pub set_scope : Session → Scope → Session
set_scope s scope = record s { scope = scope }

unfoldable pub set_user_id : Session → String → Session
set_user_id s user_id = record s { user_id = some user_id }
