-- ===== src/Examples/Values.antt =====
-- The theorems about texts, scopes and pages at concrete inputs.
use enseada.Prelude.{String, true, some, [], ◌∷◌, ◌≡◌, refl, ◌↔◌, ◌⊎◌, arith}
use enseada.Prelude.Text.{contains}
use enseada.Prelude.Sets.{has}
use enseada.Prelude.Exec.{ok, err}
use enseada.Guid.{Guid, to_string, from}
use enseada.Guid.RoundTrip.{from-to_string}
use enseada.Couch.Responses.{RowsResponse, RawDocResponse}
use enseada.Pagination.{from_rows_response}
use enseada.Pagination.Pages.{IsPageOf, from_rows_response_lem}
use enseada.Oauth.Scope.{Scope, is_full_scope, is_superset, matches, matches_exactly, refused}
use enseada.Oauth.Scope
use enseada.Oauth.Scope.Order.{is_superset_iff, full_token_refused}
use enseada.Oauth.Scope.Print.{has-from-to_string}
use enseada.Examples.Demo.{demo, read_scope}

abbrev admin : Guid
admin = record { partition = some "role"; id = "admin:x" }

from-to_string_example : from (to_string admin) ≡ admin
unfolding contains
from-to_string_example = from-to_string admin refl

abbrev some_scope : Scope
some_scope = record { names = "read" ∷ "write" ∷ [] }

abbrev full_scope : Scope
full_scope = record { names = "*" ∷ [] }

is_superset_iff_example : (is_superset some_scope read_scope ≡ true) ↔ (
    (is_full_scope some_scope ≡ true)
    ⊎ ((s : String) → has read_scope.names s ≡ true → has some_scope.names s ≡ true))
is_superset_iff_example = is_superset_iff some_scope read_scope

full_token_refused_example :
    (matches_exactly read_scope full_scope ≡ ok tt) × (matches read_scope full_scope ≡ err refused)
full_token_refused_example = full_token_refused read_scope (unfold is_full_scope has in refl)

has-from-to_string_example :
    has (Scope.from (Scope.to_string some_scope)).names "write" ≡ has some_scope.names "write"
unfolding contains
has-from-to_string_example = has-from-to_string "read" ("write" ∷ []) "write" (refl, (refl, tt))

abbrev row : String → RawDocResponse String
row k = record { id = k; key = k; rev = "1"; doc = k }

abbrev three_rows : RowsResponse String
three_rows = record { total_rows = 5; offset = 0; rows = row "a" ∷ row "b" ∷ row "c" ∷ [] }

from_rows_response_lem_example : IsPageOf demo 2 three_rows (from_rows_response demo three_rows 2)
from_rows_response_lem_example = from_rows_response_lem demo 2 three_rows (omega arith)
