-- ===== src/Couch/Error.antt =====
-- couchdb/src/error.rs. A status is its number.
use enseada.Prelude.{ℕ, String, Option, none, some}

pub record Error : Type 0 where
  pub message : String
  pub status : ℕ

-- reqwest::Error: its message, and the status of the response if there was one.
pub record TransportError : Type 0 where
  pub message : String
  pub status : Option ℕ

unfoldable pub not_found : String → Error
not_found message = record { message = message; status = 404 }

abbrev or_internal : Option ℕ → ℕ
or_internal none = 500
or_internal (some s) = s

-- `From<reqwest::Error>`
unfoldable pub from : TransportError → Error
from e = record { message = e.message; status = or_internal e.status }

unfoldable pub map_message : TransportError → String → Error
unfolding from
map_message e message = record (from e) { message = message }
