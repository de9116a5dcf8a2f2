-- ===== src/Http/Guard.antt =====
-- What the endpoints of server/src/rbac/routes.rs, server/src/user/routes.rs and
-- server/src/oauth/routes/api.rs begin with: the check of the token's scope, and the check of the
-- current user's permission.
pub mod Refusals
use enseada.Prelude.{String, List}
use enseada.Prelude.Exec.{Exec, lift, map_outcome, ◌>>=◌, ◌>>◌}
use enseada.Platform.{Platform}
use enseada.Guid.{Guid}
use enseada.Oauth.Scope
use enseada.Oauth.Scope.{Scope}
use enseada.Rbac.Enforcer.{Enforcer, evaluate}
use enseada.Users.Service.{User}
use enseada.Http.Errors.{ApiError, from_oauth, from_evaluation}

module _ (p : Platform) where
  -- enforcer.check(current_user.id(), &sub, action)?
  abbrev permitted : Enforcer p → User → Guid → String → Exec p.World ApiError (Unit {0})
  permitted e user object action =
      lift (map_outcome from_evaluation (evaluate p e user.id object action))

  -- Scope::from(required).matches(&scope)?
  abbrev pub require : String → Scope → Exec p.World ApiError Scope
  require required scope = lift (map_outcome from_oauth (Scope.matches (Scope.from required) scope))

  -- The check of the token's scope, then that of the permission.
  unfoldable pub authorize :
      String → Scope → Enforcer p → User → Guid → String → Exec p.World ApiError (Unit {0})
  authorize required scope e user object action = do
    require required scope
    permitted e user object action

  -- Scope::from(vec![required]).matches_exactly(&scope)?, then the check of the permission
  unfoldable pub authorize_exactly :
      List String → Scope → Enforcer p → User → Guid → String → Exec p.World ApiError (Unit {0})
  authorize_exactly required scope e user object action = do
    lift (map_outcome from_oauth (Scope.matches_exactly (Scope.from_vec required) scope))
    permitted e user object action
