-- ===== src/Examples/Directory.antt =====
-- The platform whose documents are users, with their ids as texts, and the codecs of users and rules over it.
use enseada.Prelude.{String, Option, true, none, some, [], ◌∷◌, refl}
use enseada.Prelude.Exec.{ok}
use enseada.Platform.{Platform}
use enseada.Guid.{simple}
use enseada.Guid
use enseada.Couch.Database.{Codec, Database}
use enseada.Oauth.Scope.{Scope}
use enseada.Rbac.Rule.{Rule, RoleAssignment}
use enseada.Rbac.Enforcer
use enseada.Rbac.Enforcer.{Enforcer}
use enseada.Users.Repository
use enseada.Users.Service.{User, as_entity}
use enseada.Users.Service.Kept.{reread}
use enseada.Examples.Store.{Store}
use enseada.Examples.Kept.{Format, kept, coded}

abbrev pub ann : User
ann = record {
  id = record { partition = some "user"; id = "ann" };
  rev = some "1";
  password_hash = "pw";
}

pub record Document : Type 0 where
  pub id : String
  pub rev : Option String
  pub password_hash : String

abbrev pub ann_document : Document
ann_document = record { id = "user:ann"; rev = some "1"; password_hash = "pw" }

abbrev pub set_rev : Document → String → Document
set_rev document rev = record document { rev = some rev }

abbrev pub revise : User → String → User
revise user rev = record user { rev = some rev }

abbrev pub directory : Platform
directory = kept Document ann_document set_rev

abbrev pub format : Format Document ann_document set_rev revise reread
format = record {
  enc = λ user. record {
    id = Guid.to_string user.id;
    rev = user.rev;
    password_hash = user.password_hash;
  };
  dec = λ document. record {
    id = Guid.from document.id;
    rev = document.rev;
    password_hash = document.password_hash;
  };
  back = λ user. refl;
  commutes = λ user rev. refl;
  revised = λ user rev. refl;
}

-- Every document but those of users is empty, and nothing is read from it.
abbrev pub given : {A : Type 0} → A → Codec directory A
given a = record { encode = λ x. ann_document; decode = λ json. ok a }

abbrev pub users : Repository.Codecs directory as_entity
users = record {
  document = coded Document ann_document set_rev revise reread format;
  rows = given (record { offset = 0; rows = []; total_rows = 0 });
  stored = given (record { ok = true; id = ""; rev = "1" });
  done = given tt;
}

abbrev pub users_db : Database
users_db = record { name = "users"; partitioned = true }

abbrev rule : Rule
rule = record { id = simple ""; rev = some "1"; sub = simple ""; obj = simple ""; act = "" }

abbrev assignment : RoleAssignment
assignment = record { id = simple ""; rev = some "1"; subject = simple ""; role = "" }

abbrev pub rbac : Enforcer.Codecs directory
rbac = record {
  rule = given rule;
  assignment = given assignment;
  rules = given (record { offset = 0; rows = []; total_rows = 0 });
  assignments = given (record { offset = 0; rows = []; total_rows = 0 });
  found_rules = given (record { docs = []; bookmark = ""; warning = none });
  found_assignments = given (record { docs = []; bookmark = ""; warning = none });
  stored = given (record { ok = true; id = ""; rev = "1" });
  done = given tt;
}

abbrev pub enforcer : Enforcer directory
enforcer = record {
  db = record { name = "rbac"; partitioned = true };
  model = record { principals = [] };
}

abbrev pub root : User
root = record {
  id = record { partition = some "user"; id = "root" };
  rev = some "1";
  password_hash = "pw";
}

abbrev pub managing : Scope
managing = record { names = "users:manage" ∷ [] }

abbrev pub nobody : Store Document
nobody = record { clock = 5; drawn = 7; docs = λ doc. none }
