-- ===== src/Server/Health.antt =====
-- server/src/observability/routes.rs with `Couch::status` of couchdb/src/lib.rs, and the page of
-- server/src/routes.rs that a browser is sent to.
use enseada.Prelude.{String, none}
use enseada.Prelude.Exec.{Exec, map_err, pure, ◌>>=◌}
use enseada.Platform.{Platform, Method}
use enseada.Couch.Error.{TransportError}
use enseada.Couch.Database.{Codec, fetch}
use enseada.Http.Errors.{ApiError, service_unavailable}

pub record Status : Type 0 where
  pub status : String

pub record HealthResponse : Type 0 where
  pub status : String

module _ (p : Platform) (c : Codec p Status) where
  -- Couch::status
  unfoldable pub couch_status : Exec p.World TransportError Status
  unfolding fetch
  couch_status = fetch p c Method.get "/_up" none none

  -- GET /health
  unfoldable pub health : Exec p.World ApiError HealthResponse
  unfolding couch_status
  health = do
    up ← map_err (λ e. service_unavailable "database connection refused") couch_status
    pure (record { status = up.status })
