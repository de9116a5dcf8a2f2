-- ===== src/Http/Query.antt =====
-- server/src/http/mod.rs: what a request for a listing asks for.
use enseada.Prelude.{ℕ, String, Option, none, some}
use enseada.Prelude.Exec.{Exec, pure, lift, map_outcome, ◌>>=◌}
use enseada.Platform.{Platform}
use enseada.Pagination.{Cursor, from_b64}
use enseada.Http.Errors.{ApiError, from_library}

pub record PaginationQuery : Type 0 where
  pub limit : Option ℕ
  pub cursor : Option String

-- PaginationQuery::limit
unfoldable pub limit : PaginationQuery → ℕ
limit q = elim q.limit [ none ↦ 20 | some n ↦ n ]

module _ (p : Platform) where
  -- What each listing does with the cursor of its query.
  abbrev pub read_cursor : Option String → Exec p.World ApiError (Option Cursor)
  read_cursor none = pure none
  read_cursor (some text) = do
    cursor ← lift (map_outcome from_library (from_b64 p text))
    pure (some cursor)
