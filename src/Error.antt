-- ===== src/Error.antt =====
-- libenseada/src/error.rs. The errors of other libraries are their messages.
use Prim.Native.String.{String, ◌++◌}
use enseada.Prelude.{ℕ}
use enseada.Couch

pub data Error : Type 0 where
  conflict : String → Error
  not_found : String → String → Error
  from_utf8 : String → Error
  base64_decode : String → Error
  database : Couch.Error.Error → Error
  generic : String → Error

-- Error::status
unfoldable pub status : Error → ℕ
status (conflict reason) = 409
status _ = 500

-- `Display`
unfoldable pub to_string : Error → String
to_string (conflict reason) = reason
to_string (not_found typ id) = typ ++ " '" ++ id ++ "' not found"
to_string (from_utf8 source) = source
to_string (base64_decode source) = source
to_string (database source) = source.message
to_string (generic message) = message
