-- ===== src/Examples/Deletions.antt =====
-- The theorems about the deletion of users and clients, at concrete inputs. A document is answered
-- with the id of its path.
use enseada.Prelude.{
  String, some, none, ◌≡◌, refl, ap, ◌∙◌, arith, inl, inr, Option-cases, false, Option, true, [],
  ◌∷◌,
}
use enseada.Prelude.Text.{contains, after}
use enseada.Prelude.Exec.{ok, err}
use enseada.Platform.{Platform}
use enseada.Error.{generic}
use enseada.Guid
use enseada.Guid.{Guid}
use enseada.Guid.RoundTrip.{from-to_string}
use enseada.Couch
use enseada.Couch.Database.{Codec, Database, path, fetch}
use enseada.Rbac.Enforcer
use enseada.Rbac.Enforcer.{Enforcer}
use enseada.Users.Repository
use enseada.Users.Service.{User, as_entity, user_guid, authenticate_user}
use enseada.Users.Routes.{delete}
use enseada.Users.Routes.Lifecycle.{OwnUserIds, deleted_user_cannot_log_in}
use enseada.Examples.Store
use enseada.Examples.Store.{Store, store, set, slash, after_slash}
use enseada.Examples.Directory.{ann, users_db, root, managing}

abbrev at : String → User → User
at doc user = record user { id = Guid.from (after slash doc) }

abbrev stamped : User → User
stamped user = record user { rev = some "1" }

abbrev archive : Platform
archive = store User ann at stamped

abbrev given : {A : Type 0} → A → Codec archive A
given a = record { encode = λ x. ann; decode = λ json. ok a }

abbrev unread : {A : Type 0} → Codec archive A
unread = record {
  encode = λ x. ann;
  decode = λ json. err (record { message = "no"; status = none });
}

abbrev users : Repository.Codecs archive as_entity
users = record {
  document = record { encode = λ user. user; decode = λ user. ok user };
  rows = given (record { offset = 0; rows = []; total_rows = 0 });
  stored = given (record { ok = true; id = ""; rev = "1" });
  done = given tt;
}

abbrev rbac : Enforcer.Codecs archive
rbac = record {
  rule = unread;
  assignment = unread;
  rules = unread;
  assignments = unread;
  found_rules = unread;
  found_assignments = unread;
  stored = unread;
  done = unread;
}

abbrev enforcer : Enforcer archive
enforcer = record {
  db = record { name = "rbac"; partitioned = true };
  model = record { principals = [] };
}

abbrev before : Store User
before = record { clock = 5; drawn = 7; docs = set User "users/user:ann" (some ann) (λ doc. none) }

abbrev after_deletion : Store User
after_deletion = (delete archive rbac users users_db enforcer managing root "ann" before).1

own : OwnUserIds archive rbac users users_db enforcer managing root
unfolding Couch.Database.get fetch Repository.find user_guid Guid.partitioned contains
own name w user h = elim (Option-cases (w.docs (path users_db (Guid.to_string (user_guid name))))) [
  | inl nothing ↦ absurd (ground arith)
  | inr (d, there) ↦
      let same : user.id
          ≡ Guid.from (after slash (path users_db (Guid.to_string (user_guid name)))) =
        ground arith in
      same
      ∙ ap Guid.from (after_slash users_db (Guid.to_string (user_guid name)) refl)
      ∙ from-to_string (user_guid name) refl
]

deletes :
    delete archive rbac users users_db enforcer managing root "ann" before ≡ (ok tt, after_deletion)
unfolding delete enseada.Http.Guard.authorize enseada.Oauth.Scope.matches enseada.Prelude.Sets.has
    enseada.Oauth.Scope.from enseada.Prelude.Sets.collect enseada.Prelude.Text.split
    enseada.Prelude.Sets.is_empty enseada.Prelude.Sets.intersection enseada.Rbac.Enforcer.evaluate
    enseada.Rbac.Model.check Guid.to_string Couch.Database.get Couch.Database.delete fetch Guid.from
    Guid.partitioned Guid.simple enseada.Oauth.Scope.is_full_scope enseada.Prelude.Sets.add contains
    enseada.Prelude.Text.before after Repository.find Repository.delete user_guid
deletes = refl

deleted_user_cannot_log_in_example :
    (authenticate_user archive users users_db "ann" "pw" after_deletion).0
    ≡ err (generic "authentication failed")
deleted_user_cannot_log_in_example =
    deleted_user_cannot_log_in archive rbac users users_db enforcer managing root "ann" "pw" before
      after_deletion (Store.laws User ann at stamped) own deletes
