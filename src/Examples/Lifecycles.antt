-- ===== src/Examples/Lifecycles.antt =====
-- The theorems about the registration and the deletion of users, at concrete inputs.
use Prim.Native.Char.{Char, code}
use Prim.Native.String.{String, ◌++◌}
use text.Mathlib.TextLemmas.{cons-append}
use enseada.Prelude.{
  ℕ, true, false, Option, none, some, List, [], ◌∷◌, ◌≡◌, ◌≢◌, refl, ap, sym, ◌∙◌, inl, inr, arith,
  eq_iff, ◌==◌,
}
use enseada.Prelude.Exec.{ok}
use enseada.Secure.Hashes.{VerifiesOwnHashes}
use enseada.Couch.Database.{Database, path}
use enseada.Users.Service.{User, as_entity, user_guid, authenticate_user}
use enseada.Users.Service.Kept.{reread}
use enseada.Users.Routes.{Registration, UserResponse, register, delete}
use enseada.Users.Routes.Lifecycle.{Apart, registered_user_logs_in}
use enseada.Examples.Store.{Store}
use enseada.Examples.Kept.{storing}
use enseada.Examples.Directory.{
  Document, ann_document, set_rev, revise, format, directory, users, users_db, rbac, enforcer, root,
  managing, nobody,
}

abbrev registration : Registration
registration = record { username = "bob"; password = "secret"; roles = some ("reader" ∷ []) }

abbrev bob : UserResponse
bob = record { username = "bob" }

abbrev registered : Store Document
registered = (register directory rbac users users_db enforcer managing root registration nobody).1

registers :
    register directory rbac users users_db enforcer managing root registration nobody
    ≡ (ok bob, registered)
unfolding register enseada.Http.Guard.authorize enseada.Oauth.Scope.matches enseada.Prelude.Sets.has
    enseada.Oauth.Scope.from enseada.Prelude.Sets.collect enseada.Prelude.Text.split
    enseada.Prelude.Sets.is_empty enseada.Prelude.Sets.intersection enseada.Rbac.Enforcer.evaluate
    enseada.Rbac.Model.check enseada.Guid.to_string enseada.Users.Service.new
    enseada.Secure.hash_password enseada.Users.Repository.save enseada.Couch.Database.put
    enseada.Rbac.Enforcer.add_role_to_principal enseada.Couch.Database.fetch enseada.Guid.from
    enseada.Guid.partitioned enseada.Guid.simple enseada.Oauth.Scope.is_full_scope
    enseada.Prelude.Sets.add enseada.Prelude.Text.contains enseada.Prelude.Text.before
    enseada.Prelude.Text.after enseada.Rbac.Rule.assignment_guid enseada.Rbac.Rule.new_assignment
    enseada.Secure.generate_token enseada.Secure.new enseada.Users.Routes.add_roles
    enseada.Users.Routes.from_user user_guid enseada.Users.Service.username
registers = refl

verifies : VerifiesOwnHashes directory
verifies salt password hash h = ground (arith, eq_iff hash password)

-- The first character of a text, as a number.
abbrev first : String → ℕ
first String.[] = 0
first (String.◌∷◌ x s) = code x

initial : (x : Char) (s t : String) → first (String.◌∷◌ x s ++ t) ≡ code x
initial x s t = ap first (cons-append x s t)

apart : Apart directory rbac users users_db enforcer managing root
apart rbac_id user_id same =
    let left : first (path enforcer.db rbac_id) ≡ 114 = initial "r" "bac" ("/" ++ rbac_id) in
    let right : first (path users_db user_id) ≡ 117 = initial "u" "sers" ("/" ++ user_id) in
    let both : first (path enforcer.db rbac_id) ≡ first (path users_db user_id) = ap first same in
    absurd (omega arith)

registered_user_logs_in_example :
    (found : User) × ((authenticate_user directory users users_db "bob" "secret" registered).0
      ≡ ok found)
    × (found.id ≡ user_guid "bob")
registered_user_logs_in_example =
    registered_user_logs_in directory rbac users users_db enforcer managing root registration bob
      nobody registered (storing Document ann_document set_rev revise reread format) apart verifies
      registers
