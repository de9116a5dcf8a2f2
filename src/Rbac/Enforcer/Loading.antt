-- ===== src/Rbac/Enforcer/Loading.antt =====
-- What loading makes of rules whose subject is a principal.
use Prim.Native.String.{String}
use enseada.Prelude.{
  true, false, some, List, [], ◌∷◌, ◌≡◌, ◌∙◌, ap, sym, arith, eq_iff, ◌==◌, inl, inr, Bool-cases,
  Option-cases,
}
use enseada.Prelude.Text.{contains}
use enseada.Prelude.Table.{Table, lookup, insert, lookup-insert}
use enseada.Platform.{Platform}
use enseada.Guid.{Guid, colon}
use enseada.Guid
use enseada.Rbac.Model.{
  Permission, Role, Principal, new_permission, new_principal, add_permission, add_role,
}
use enseada.Rbac.Rule.{Rule, RoleAssignment}
use enseada.Rbac.Enforcer.{
  Rules, role_or_new, principal_or_new, add_rule, load_rows, assign_role, assign_roles, no_rules,
}

-- No rule has a colon in the id of its subject.
abbrev pub PlainSubjects : List Rule → Type 0
PlainSubjects [] = Unit
PlainSubjects (rule ∷ rest) = (contains colon rule.sub.id ≡ false) × PlainSubjects rest

module _ (p : Platform) (name : String) (partitioned : contains colon name ≡ true) where
  -- No entry under the name, or one without permissions of its own.
  abbrev HasNone : Table (Principal p) → Type 0
  HasNone principals = (pr : Principal p) → lookup name principals ≡ some pr → pr.permissions ≡ []

  other_key : (k : String) → contains colon k ≡ false → (k == name) ≡ false
  other_key k plain = elim (Bool-cases (k == name)) [
    | inl e ↦ absurd (cc (partitioned, plain, (eq_iff k name).0 e))
    | inr other ↦ other
  ]

  lookup-insert_other :
      (k : String) (pr : Principal p) (m : Table (Principal p))
      → contains colon k ≡ false
      → lookup name (insert k pr m) ≡ lookup name m
  lookup-insert_other k pr m plain = rw (lookup-insert k name pr m, other_key k plain)

  add_rule-HasNone :
      (rules : Rules p) (subject : Guid) (permission : Permission p)
      → contains colon subject.id ≡ false
      → HasNone rules.principals
      → HasNone (add_rule p rules subject permission).principals
  unfolding add_rule
  add_rule-HasNone rules subject permission plain h pr found =
      let changed : Principal p =
        add_permission p (principal_or_new p (lookup subject.id rules.principals) subject.id)
          permission in
      h pr (ground (arith, lookup-insert_other subject.id changed rules.principals plain))

  load_rows-HasNone :
      (rules loaded : Rules p) (rows : List Rule)
      → PlainSubjects rows
      → HasNone rules.principals
      → load_rows p rules rows ≡ some loaded
      → HasNone loaded.principals
  unfolding load_rows
  load_rows-HasNone rules loaded [] plain h e = λ pr found. h pr (ground arith)
  load_rows-HasNone rules loaded (rule ∷ rest) plain h e =
      elim (Option-cases (new_permission p (Guid.to_string rule.obj) rule.act)) [
        | inl bad ↦ absurd (ground arith)
        | inr (permission, made) ↦
            load_rows-HasNone (add_rule p rules rule.sub permission) loaded rest plain.1
              (add_rule-HasNone rules rule.sub permission plain.0 h) (ground arith)
      ]

  assign_role-HasNone :
      (roles : Table (Role p)) (principals : Table (Principal p)) (assignment : RoleAssignment)
      → HasNone principals
      → HasNone (assign_role p roles principals assignment)
  unfolding assign_role add_role new_principal
  assign_role-HasNone roles principals assignment h pr found =
      let sub : String = Guid.to_string assignment.subject in
      let role : Role p = role_or_new p (lookup assignment.role roles) assignment.role in
      let old : Principal p = principal_or_new p (lookup sub principals) sub in
      let inserted = lookup-insert sub name (add_role p old role) principals in
      elim (Bool-cases (sub == name)) [
        | inl same ↦ elim (Option-cases (lookup sub principals)) [
          | inl missing ↦ ground (arith, inserted)
          | inr (before, there) ↦ ground (
            arith,
            inserted,
            h before (ap (λ k. lookup k principals) (sym ((eq_iff sub name).0 same)) ∙ there),
          )
        ]
        | inr other ↦ h pr (ground (arith, inserted))
      ]

  assign_roles-HasNone :
      (roles : Table (Role p)) (principals : Table (Principal p)) (rows : List RoleAssignment)
      → HasNone principals
      → HasNone (assign_roles p roles principals rows)
  unfolding assign_roles
  assign_roles-HasNone roles principals [] h = h
  assign_roles-HasNone roles principals (assignment ∷ rest) h =
      assign_roles-HasNone roles (assign_role p roles principals assignment) rest
        (assign_role-HasNone roles principals assignment h)

-- However rules and role assignments are loaded, a principal whose name has a colon, as `user:ann`
-- has, is left without any permission of its own, if no rule has a colon in the id of its subject:
-- the rules are kept under the bare id, and the check looks for the whole name.
pub direct_rules_unreachable :
    (p : Platform) (name : String) (rows : List Rule) (assignments : List RoleAssignment)
    (loaded : Rules p) (pr : Principal p)
    → contains colon name ≡ true
    → PlainSubjects rows
    → load_rows p (no_rules p) rows ≡ some loaded
    → lookup name (assign_roles p loaded.roles loaded.principals assignments) ≡ some pr
    → pr.permissions ≡ []
unfolding lookup
direct_rules_unreachable p name rows assignments loaded pr colon_in plain e found =
    assign_roles-HasNone p name colon_in loaded.roles loaded.principals assignments
      (load_rows-HasNone p name colon_in (no_rules p) loaded rows plain (λ x h. ground arith) e) pr
      found
