-- ===== src/Rbac/Enforcer.antt =====
-- `Enforcer` of server/src/rbac/mod.rs: the model that is loaded from the database, the check, and
-- the changes of the documents.
pub mod Loading
use Prim.Native.String.{String, ◌++◌}
use enseada.Prelude.{
  ℕ, Bool, false, Option, none, some, List, [], ◌∷◌, map, nat_eq, ◌==◌, if◌then◌else◌,
}
use enseada.Prelude.Table.{Table, lookup, insert}
use enseada.Prelude.Exec.{
  Outcome, ok, err, panic, Exec, pure, lift, map_err, ok_or, unwrap, ◌>>=◌, ◌>>◌,
}
use enseada.Platform.{Platform}
use enseada.Error.{Error, conflict, not_found, database}
use enseada.Couch
use enseada.Couch.Responses.{PutResponse, FindResponse, RowsResponse}
use enseada.Couch.Database.{Codec, Database}
use enseada.Couch.Database
use enseada.Guid
use enseada.Guid.{Guid}
use enseada.Pagination.{Cursor, Page, from_find_response, map_page}
use enseada.Rbac.Model
use enseada.Rbac.Model.{
  EvaluationResult, Permission, Role, Principal, Model, new_permission, new_role,
  role_add_permission, new_principal, add_role, add_permission, set_principals, check,
}
use enseada.Rbac.Rule.{Rule, RoleAssignment, new_rule, rule_guid, new_assignment, assignment_guid}

pub data EvaluationError : Type 0 where
  denied : EvaluationError

-- cursor.map(Cursor::to_string)
abbrev cursor_text : Option Cursor → Option String
cursor_text none = none
cursor_text (some cursor) = some cursor.text

module _ (p : Platform) where
  -- The two maps that the loop over the rules fills.
  pub record Rules : Type 0 where
    pub principals : Table (Principal p)
    pub roles : Table (Role p)

  -- map.contains_key(sub), map.insert(sub, new) and map.get_mut(sub).unwrap() in one: the entry
  -- under the key, or a new one.
  unfoldable pub role_or_new : Option (Role p) → String → Role p
  role_or_new (some role) sub = role
  role_or_new none sub = new_role p sub

  unfoldable pub principal_or_new : Option (Principal p) → String → Principal p
  principal_or_new (some principal) sub = principal
  principal_or_new none sub = new_principal p sub

  abbrev pub is_role : Guid → Bool
  is_role sub = elim sub.partition [ none ↦ false | some partition ↦ partition == "role" ]

  -- One turn of the loop over the rules. The key is the id of the subject, without its partition.
  unfoldable pub add_rule : Rules → Guid → Permission p → Rules
  unfolding role_or_new principal_or_new
  add_rule rules subject permission =
      let sub = subject.id in
      if is_role subject
      then record rules {
        roles =
            insert sub (role_add_permission p (role_or_new (lookup sub rules.roles) sub) permission)
              rules.roles;
      }
      else record rules {
        principals =
            insert sub
              (add_permission p (principal_or_new (lookup sub rules.principals) sub) permission)
              rules.principals;
      }

  abbrev add_read : Rules → Guid → Option (Permission p) → Option Rules
  add_read rules subject none = none
  add_read rules subject (some permission) = some (add_rule rules subject permission)

  abbrev and_then : {A B : Type 0} → Option A → (A → Option B) → Option B
  and_then none f = none
  and_then (some a) f = f a

  -- The loop over the rules; `none` is a panic.
  unfoldable pub load_rows : Rules → List Rule → Option Rules
  unfolding add_rule
  load_rows rules [] = some rules
  load_rows rules (rule ∷ rest) =
      and_then (add_read rules rule.sub (new_permission p (Guid.to_string rule.obj) rule.act))
        (λ next. load_rows next rest)

  -- The loop over the role assignments. The key is the text of the subject, with its partition.
  unfoldable pub assign_role :
      Table (Role p) → Table (Principal p) → RoleAssignment → Table (Principal p)
  unfolding role_or_new principal_or_new
  assign_role roles principals assignment =
      let sub = Guid.to_string assignment.subject in
      let role = role_or_new (lookup assignment.role roles) assignment.role in
      insert sub (add_role p (principal_or_new (lookup sub principals) sub) role) principals

  unfoldable pub assign_roles :
      Table (Role p) → Table (Principal p) → List RoleAssignment → Table (Principal p)
  unfolding assign_role
  assign_roles roles principals [] = principals
  assign_roles roles principals (assignment ∷ rest) =
      assign_roles roles (assign_role roles principals assignment) rest

  -- The code that serde derives for the documents and the answers.
  pub record Codecs : Type 0 where
    pub rule : Codec p Rule
    pub assignment : Codec p RoleAssignment
    pub rules : Codec p (RowsResponse Rule)
    pub assignments : Codec p (RowsResponse RoleAssignment)
    pub found_rules : Codec p (FindResponse Rule)
    pub found_assignments : Codec p (FindResponse RoleAssignment)
    pub stored : Codec p PutResponse
    pub done : Codec p (Unit {0})

  pub record Enforcer : Type 0 where
    pub db : Database
    pub model : Model p

  -- Enforcer::new
  unfoldable pub new : Database → Enforcer
  new db = record { db = db; model = Model.empty p }

  abbrev docs_of : {T : Type 0} → RowsResponse T → List T
  docs_of res = map (λ row. row.doc) res.rows

  abbrev pub no_rules : Rules
  no_rules = record { principals = []; roles = [] }

  -- EvaluationResult to Result
  abbrev judge : EvaluationResult → Outcome EvaluationError (Unit {0})
  judge EvaluationResult.granted = ok tt
  judge EvaluationResult.denied = err EvaluationError.denied

  abbrev judged : Option EvaluationResult → Outcome EvaluationError (Unit {0})
  judged none = panic
  judged (some result) = judge result

  -- Enforcer::check
  unfoldable pub evaluate : Enforcer → Guid → Guid → String → Outcome EvaluationError (Unit {0})
  evaluate e sub obj act = judged (check p e.model (Guid.to_string sub) (Guid.to_string obj) act)

  -- A conflict of the database is one of the rules; other errors of the database are passed on.
  abbrev put_error : String → Couch.Error.Error → Error
  put_error reason e = if nat_eq e.status 409 then conflict reason else database e

  abbrev partition_or : String → Guid → String
  partition_or default g = elim g.partition [ none ↦ default | some partition ↦ partition ]

  -- An operation on the world for which the enforcer is only read.
  abbrev using :
      {A : Type 0} → (Enforcer → Exec p.World Error A) → Exec (Enforcer × p.World) Error A
  using f (e, w) = let (r, w') = f e w in (r, (e, w'))

  -- A change of `self.model`
  abbrev change_model : (Model p → Model p) → Exec (Enforcer × p.World) Error (Unit {0})
  change_model f (e, w) = (ok tt, (record e { model = f e.model }, w))

  module _ (c : Codecs) where
    -- `&mut self`: the enforcer is part of the state.
    unfoldable pub load_rules : Exec (Enforcer × p.World) Error (Unit {0})
    unfolding load_rows assign_roles set_principals
    load_rules = do
      rules ←
          using (λ e. map_err database (Couch.Database.list_all_partitioned p c.rules e.db "rule"))
      loaded ← unwrap (load_rows no_rules (docs_of rules))
      assignments ←
          using (λ e.
            map_err database (Couch.Database.list_all_partitioned p c.assignments e.db "role"))
      change_model (λ m.
          set_principals p m (assign_roles loaded.roles loaded.principals (docs_of assignments)))

    -- Enforcer::add_permission
    unfoldable pub grant : Enforcer → Guid → Guid → String → Exec p.World Error (Unit {0})
    unfolding new_rule
    grant e sub obj act =
        let sub_name = Guid.to_string sub in
        let rule = new_rule sub obj act in
        map_err (put_error ("permission already assigned to " ++ sub_name))
          (do Couch.Database.put p c.rule c.stored e.db (Guid.to_string rule.id) rule; pure tt)

    -- Enforcer::remove_permission
    unfoldable pub withdraw : Enforcer → Guid → Guid → String → Exec p.World Error (Unit {0})
    unfolding rule_guid
    withdraw e sub obj act = do
      let id = rule_guid (Guid.to_string sub) (Guid.to_string obj) act
      found ← map_err database (Couch.Database.get p c.rule e.db (Guid.to_string id))
      rule ← ok_or (not_found (partition_or "permission" id) id.id) found
      rev ← unwrap rule.rev
      map_err database (Couch.Database.delete p c.done e.db (Guid.to_string rule.id) rev)

    unfoldable pub list_principal_permissions :
        Enforcer → Guid → ℕ → Option Cursor → Exec p.World Error (Page Rule)
    list_principal_permissions e sub limit cursor = do
      response ← map_err database (
          Couch.Database.find_partitioned p c.found_rules e.db "rule"
            (p.field_equals "sub" (Guid.to_string sub)) limit (cursor_text cursor))
      pure (from_find_response p response limit)

    unfoldable pub add_role_to_principal : Enforcer → Guid → String → Exec p.World Error (Unit {0})
    unfolding new_assignment
    add_role_to_principal e sub role =
        let sub_name = Guid.to_string sub in
        let assignment = new_assignment sub role in
        map_err (put_error ("role already assigned to " ++ sub_name)) (do
          Couch.Database.put p c.assignment c.stored e.db (Guid.to_string assignment.id) assignment
          pure tt)

    delete_found : Enforcer → Option RoleAssignment → Exec p.World Error (Unit {0})
    delete_found e none = pure tt
    delete_found e (some assignment) = do
      rev ← unwrap assignment.rev
      map_err database (Couch.Database.delete p c.done e.db (Guid.to_string assignment.id) rev)

    unfoldable pub remove_role_from_principal :
        Enforcer → Guid → String → Exec p.World Error (Unit {0})
    unfolding delete_found assignment_guid
    remove_role_from_principal e sub role = do
      found ← map_err database (
          Couch.Database.get p c.assignment e.db
            (Guid.to_string (assignment_guid (Guid.to_string sub) role)))
      delete_found e found

    unfoldable pub list_principal_roles :
        Enforcer → Guid → ℕ → Option Cursor → Exec p.World Error (Page String)
    list_principal_roles e sub limit cursor = do
      response ← map_err database (
          Couch.Database.find_partitioned p c.found_assignments e.db "role"
            (p.field_equals "subject" (Guid.to_string sub)) limit (cursor_text cursor))
      pure (map_page (λ assignment. assignment.role) (from_find_response p response limit))
