-- ===== src/Rbac/Rule.antt =====
-- `Rule` and `RoleAssignment` of server/src/rbac/mod.rs: the documents of the rbac database.
use Prim.Native.String.{String, ◌++◌}
use enseada.Prelude.{Option, none}
use enseada.Guid
use enseada.Guid.{Guid}

pub record Rule : Type 0 where
  pub id : Guid
  pub rev : Option String
  pub sub : Guid
  pub obj : Guid
  pub act : String

-- format!("rule:{}-{}-{}", sub, obj, act)
unfoldable pub rule_guid : String → String → String → Guid
rule_guid sub obj act = Guid.from ("rule:" ++ (sub ++ ("-" ++ (obj ++ ("-" ++ act)))))

-- Rule::new
unfoldable pub new_rule : Guid → Guid → String → Rule
new_rule sub obj act = record {
  id = rule_guid (Guid.to_string sub) (Guid.to_string obj) act;
  rev = none;
  sub = sub;
  obj = obj;
  act = act;
}

pub record RoleAssignment : Type 0 where
  pub id : Guid
  pub rev : Option String
  pub subject : Guid
  pub role : String

-- format!("role:{}-{}", role, sub)
unfoldable pub assignment_guid : String → String → Guid
assignment_guid sub role = Guid.from ("role:" ++ (role ++ ("-" ++ sub)))

-- RoleAssignment::new
unfoldable pub new_assignment : Guid → String → RoleAssignment
new_assignment subject role = record {
  id = assignment_guid (Guid.to_string subject) role;
  rev = none;
  subject = subject;
  role = role;
}
