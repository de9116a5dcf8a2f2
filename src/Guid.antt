-- ===== src/Guid.antt =====
-- libenseada/src/guid.rs: identifiers of documents, with an optional partition.
pub mod RoundTrip
use Prim.Native.Char.{Char}
use Prim.Native.String.{String, ◌++◌}
use mathlib.Core.Option.{Option, none, some}
use enseada.Prelude.{Bool, if◌then◌else◌}
use enseada.Prelude.Text.{contains, before, after}

pub record Guid : Type 0 where
  pub partition : Option String
  pub id : String

abbrev pub colon : Char
colon = ":"

unfoldable pub simple : String → Guid
simple id = record { partition = none; id = id }

unfoldable pub partitioned : String → String → Guid
partitioned partition id = record { partition = some partition; id = id }

-- `Display`: the partition and a colon, if there is one, then the id.
abbrev partition_prefix : Option String → String
partition_prefix none = ""
partition_prefix (some s) = s ++ ":"

unfoldable pub to_string : Guid → String
to_string g = partition_prefix g.partition ++ g.id

-- `From<String>`. Of a text that has a colon, `splitn(2, ':')` has exactly two parts: what stands
-- before the first colon and what stands behind it, so that the `unwrap` there does not panic.
unfoldable pub from : String → Guid
from s =
    if contains colon s
    then record { partition = some (before colon s); id = after colon s }
    else record { partition = none; id = s }
