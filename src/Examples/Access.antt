-- ===== src/Examples/Access.antt =====
-- The theorems about the access control at concrete inputs.
use enseada.Prelude.{String, false, some, none, List, [], ◌∷◌, ◌≡◌, refl, ◌↔◌, ◌⊎◌, ◌==◌}
use enseada.Prelude.Text.{contains}
use enseada.Prelude.Table.{lookup, insert}
use enseada.Guid
use enseada.Guid.{Guid}
use enseada.Rbac.Model
use enseada.Rbac.Model.{
  Permission, Role, Principal, Model, check, granted, visit_principal, new_permission,
  role_add_permission, new_role, add_permission, add_role, new_principal,
}
use enseada.Rbac.Model.Decisions.{Granted, check_iff, check_panics}
use enseada.Rbac.Rule.{Rule, RoleAssignment}
use enseada.Rbac.Enforcer.{Rules, load_rows, assign_roles}
use enseada.Rbac.Enforcer.Loading.{direct_rules_unreachable}
use enseada.Examples.Demo.{demo}

abbrev permission : String → String → Permission demo
permission object action = record {
  object = object;
  action = action;
  object_pattern = object;
  action_pattern = action;
}

abbrev keeper : List (String × Permission demo) → Principal demo
keeper permissions = record { name = "user:ann"; roles = []; permissions = permissions }

abbrev ann : Principal demo
ann = keeper (
    ("repos:*, read", permission "repos:a" "read")
    ∷ ("users:b, write", permission "users:b" "write")
    ∷ [])

abbrev ann_swapped : Principal demo
ann_swapped = keeper (
    ("users:b, write", permission "users:b" "write")
    ∷ ("repos:*, read", permission "repos:a" "read")
    ∷ [])

abbrev model : Model demo
model = record { principals = ("user:ann", ann) ∷ [] }

check_iff_example :
    (check demo model "user:ann" "users:b" "write" ≡ some granted)
    ↔ Granted demo model "user:ann" "users:b" "write"
check_iff_example = check_iff demo model "user:ann" "users:b" "write"

check_panics_example : (check demo model "user:ann" "[" "read" ≡ none) ↔ (
    (("user:ann" == "user:root") ≡ false)
    × ((demo.parse_pattern "[" ≡ none) ⊎ (demo.parse_pattern "read" ≡ none)))
check_panics_example = check_panics demo model "user:ann" "[" "read"

abbrev user : Guid
user = record { partition = some "user"; id = "ann" }

abbrev rules : List Rule
rules =
    record {
      id = user;
      rev = none;
      sub = user;
      obj = record { partition = none; id = "repos" };
      act = "read";
    }
    ∷ []

abbrev assignments : List RoleAssignment
assignments = record { id = user; rev = none; subject = user; role = "reader" } ∷ []

abbrev loaded : Rules demo
loaded = record {
  principals =
      (
        "ann",
        record {
          name = "ann";
          roles = [];
          permissions = ("repos, read", permission "repos" "read") ∷ [];
        },
      )
      ∷ [];
  roles = [];
}

abbrev found_ann : Principal demo
found_ann = record {
  name = "user:ann";
  roles = ("reader", record { name = "reader"; permissions = [] }) ∷ [];
  permissions = [];
}

direct_rules_unreachable_example : found_ann.permissions ≡ []
unfolding contains load_rows new_permission Guid.to_string insert add_permission lookup
    new_principal Model.to_string assign_roles add_role new_role
direct_rules_unreachable_example =
    direct_rules_unreachable demo "user:ann" rules assignments loaded found_ann refl (refl, tt) refl
      refl
