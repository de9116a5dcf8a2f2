-- ===== src/Oauth/Storage.antt =====
-- server/src/oauth/storage.rs: what the handler asks of a storage.
use enseada.Prelude.{ℕ, String, Option}
use enseada.Prelude.Exec.{Exec}
use enseada.Platform.{Platform}
use enseada.Pagination.{Cursor, Page}
use enseada.Oauth.Error.{Error}
use enseada.Oauth.Client.{Client}
use enseada.Oauth.Code.{AuthorizationCode}

pub record ClientStorage (p : Platform) : Type 0 where
  pub list_clients : ℕ → Option Cursor → Exec p.World Error (Page (Client p))
  pub get_client : String → p.World → Option (Client p) × p.World
  pub save_client : Client p → Exec p.World Error (Client p)
  pub delete_client : Client p → Exec p.World Error (Unit {0})

pub record TokenStorage (p : Platform) (T : Type 0) : Type 0 where
  pub get_token : String → p.World → Option T × p.World
  pub store_token : String → T → Exec p.World Error T
  pub revoke_token : String → Exec p.World Error (Unit {0})

pub record AuthorizationCodeStorage (p : Platform) : Type 0 where
  pub get_code : String → p.World → Option (AuthorizationCode p) × p.World
  pub store_code : String → AuthorizationCode p → Exec p.World Error (AuthorizationCode p)
  pub revoke_code : String → Exec p.World Error (Unit {0})
