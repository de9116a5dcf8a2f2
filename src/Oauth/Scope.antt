-- ===== src/Oauth/Scope.antt =====
-- server/src/oauth/scope.rs: sets of scope names, where the name `*` stands for all.
pub mod Order
pub mod Print
use Prim.Native.Char.{Char}
use enseada.Prelude.{String, Bool, false, List, ◌||◌, if◌then◌else◌}
use enseada.Prelude.Text.{split, join, sort}
use enseada.Prelude.Sets.{has, collect, intersection, superset, is_empty}
use enseada.Prelude.Exec.{Outcome, ok, err}
use enseada.Oauth.Error
use enseada.Oauth.Error.{Error, invalid_scope}

pub record Scope : Type 0 where
  pub names : List String

abbrev pub space : Char
space = " "

abbrev pub refused : Error
refused = Error.new invalid_scope "invalid scope"

unfoldable pub is_full_scope : Scope → Bool
is_full_scope s = has s.names "*"

unfoldable pub is_superset : Scope → Scope → Bool
unfolding is_full_scope
is_superset s other = is_full_scope s || superset s.names other.names

unfoldable pub is_subset : Scope → Scope → Bool
unfolding is_full_scope
is_subset s other = is_full_scope other || superset other.names s.names

-- The names that both have, or an error where there are none.
unfoldable pub matches : Scope → Scope → Outcome Error Scope
unfolding is_full_scope
matches s other =
    let common = intersection s.names other.names in
    if is_full_scope s
    then ok other
    else if is_empty common
    then err refused
    else ok (record { names = common })

unfoldable pub matches_exactly : Scope → Scope → Outcome Error (Unit {0})
unfolding is_full_scope is_subset
matches_exactly s other =
    if is_full_scope s then ok tt else if is_subset s other then ok tt else err refused

-- `From<Vec<String>>`
unfoldable pub from_vec : List String → Scope
from_vec names = record { names = collect names }

-- `From<String>`, and `Deserialize` behind the text.
unfoldable pub from : String → Scope
from scope = record { names = collect (split space scope) }

unfoldable pub to_string : Scope → String
to_string s = join space (sort s.names)

-- `PartialEq`: the same names.
unfoldable pub eq : Scope → Scope → Bool
eq s other = if superset s.names other.names then superset other.names s.names else false
