-- ===== src/Rbac/Model.antt =====
-- server/src/rbac/model.rs: principals with permissions and roles, and the check of a request.
pub mod Decisions
use Prim.Native.String.{String, ◌++◌}
use enseada.Prelude.{
  Bool, true, false, Option, none, some, List, [], ◌∷◌, any, ◌&&◌, ◌==◌, if◌then◌else◌,
}
use enseada.Prelude.Table.{Table, lookup, insert, values}
use enseada.Platform.{Platform}

pub data EvaluationResult : Type 0 where
  granted denied : EvaluationResult

module _ (p : Platform) where
  open p use {Pattern, parse_pattern, pattern_matches}

  pub record Permission : Type 0 where
    pub object : String
    pub action : String
    pub object_pattern : Pattern
    pub action_pattern : Pattern

  -- Both texts are read as glob patterns; `none` is the panic of `unwrap` on a bad one.
  unfoldable pub new_permission : String → String → Option Permission
  new_permission object action = elim (parse_pattern object) [
    | none ↦ none
    | some object_pattern ↦ elim (parse_pattern action) [
      | none ↦ none
      | some action_pattern ↦ some (record {
        object = object;
        action = action;
        object_pattern = object_pattern;
        action_pattern = action_pattern;
      })
    ]
  ]

  -- Permission::matches
  unfoldable pub matches : Permission → Permission → Bool
  matches a b =
      pattern_matches a.object_pattern b.object && pattern_matches a.action_pattern b.action

  -- `Display`, the key under which a permission is kept.
  unfoldable pub to_string : Permission → String
  to_string a = a.object ++ ", " ++ a.action

  -- The derived `PartialEq`. A permission is made by `new_permission` alone, which reads the
  -- patterns off the texts, so that equal texts have equal patterns.
  unfoldable pub same : Permission → Permission → Bool
  same a b = a.object == b.object && a.action == b.action

  pub record Role : Type 0 where
    pub name : String
    pub permissions : Table Permission

  pub record Principal : Type 0 where
    pub name : String
    pub roles : Table Role
    pub permissions : Table Permission

  -- Model: the principals by their names.
  pub record Model : Type 0 where
    pub principals : Table Principal

  unfoldable pub new_role : String → Role
  new_role name = record { name = name; permissions = [] }

  unfoldable pub role_add_permission : Role → Permission → Role
  role_add_permission r a = record r { permissions = insert (to_string a) a r.permissions }

  unfoldable pub new_principal : String → Principal
  new_principal name = record { name = name; roles = []; permissions = [] }

  unfoldable pub add_role : Principal → Role → Principal
  add_role pr r = record pr { roles = insert r.name r pr.roles }

  unfoldable pub add_permission : Principal → Permission → Principal
  add_permission pr a = record pr { permissions = insert (to_string a) a pr.permissions }

  unfoldable pub empty : Model
  empty = record { principals = [] }

  unfoldable pub set_principals : Model → Table Principal → Model
  set_principals m principals = record m { principals = principals }

  unfoldable pub add_principal : Model → Principal → Model
  add_principal m pr = record m { principals = insert pr.name pr m.principals }

  -- The loop over permissions: the first that matches grants.
  unfoldable pub visit_permissions : List Permission → Permission → EvaluationResult
  visit_permissions [] target = denied
  visit_permissions (a ∷ rest) target =
      let others = visit_permissions rest target in if matches a target then granted else others

  -- `Visitable for Role`
  unfoldable pub visit_role : Role → Permission → EvaluationResult
  unfolding same visit_permissions
  visit_role r target =
      if any (λ a. same a target) (values r.permissions)
      then granted
      else visit_permissions (values r.permissions) target

  -- The loop over roles: the first that grants decides.
  unfoldable pub visit_roles : List Role → Permission → EvaluationResult
  unfolding visit_role
  visit_roles [] target = denied
  visit_roles (r ∷ rest) target =
      let others = visit_roles rest target in
      elim (visit_role r target) [ granted ↦ granted | denied ↦ others ]

  abbrev or_roles : Principal → Permission → EvaluationResult → EvaluationResult
  or_roles pr target granted = granted
  or_roles pr target denied = visit_roles (values pr.roles) target

  -- `Visitable for Principal`
  unfoldable pub visit_principal : Principal → Permission → EvaluationResult
  unfolding same visit_permissions visit_roles
  visit_principal pr target =
      if any (λ a. same a target) (values pr.permissions)
      then granted
      else or_roles pr target (visit_permissions (values pr.permissions) target)

  abbrev visit_found : Permission → Option Principal → EvaluationResult
  visit_found target none = denied
  visit_found target (some pr) = visit_principal pr target

  abbrev decide_target : Model → String → Option Permission → Option EvaluationResult
  decide_target m principal none = none
  decide_target m principal (some target) =
      some (visit_found target (lookup principal m.principals))

  -- `none` is a panic.
  unfoldable pub check : Model → String → String → String → Option EvaluationResult
  check m principal object action =
      if principal == "user:root"
      then some granted
      else decide_target m principal (new_permission object action)
