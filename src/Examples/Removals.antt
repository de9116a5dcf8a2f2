-- ===== src/Examples/Removals.antt =====
-- The theorem about the deletion of clients, at a concrete input. A document is answered with the id
-- of its path.
use enseada.Prelude.{
  String, true, some, none, ◌≡◌, refl, ap, ◌∙◌, arith, inl, inr, Option-cases, [], ◌∷◌, append,
}
use enseada.Prelude.Text.{contains, after}
use enseada.Prelude.Exec.{ok, err}
use enseada.Platform.{Platform}
use enseada.Guid
use enseada.Guid.{Guid}
use enseada.Guid.RoundTrip.{to_string-from}
use enseada.Couch
use enseada.Couch.Database.{Codec, path, fetch}
use enseada.Oauth.Scope
use enseada.Oauth.Persistence
use enseada.Oauth.Persistence.Entities.{client_guid}
use enseada.Oauth.Api
use enseada.Oauth.Api.{ClientResponse, delete_client}
use enseada.Oauth.Api.Lifecycle.{OwnClientIds, deleted_client_gone}
use enseada.Rbac.Enforcer.{Enforcer}
use enseada.Examples.Demo.{read_scope}
use enseada.Examples.Store
use enseada.Examples.Store.{Store, store, set, slash, after_slash}
use enseada.Examples.Directory.{root}
use enseada.Examples.Registrations.{Registration, app, set_rev, oauth_db, registrar}

abbrev at : String → Registration → Registration
at doc client = record client { id = after slash doc }

abbrev stamped : Registration → Registration
stamped client = set_rev client "1"

abbrev archive : Platform
archive = store Registration app at stamped

abbrev given : {A : Type 0} → A → Codec archive A
given a = record { encode = λ x. app; decode = λ json. ok a }

abbrev unread : {A : Type 0} → Codec archive A
unread = record {
  encode = λ x. app;
  decode = λ json. err (record { message = "no"; status = none });
}

abbrev clients : Persistence.Codecs archive
clients = record {
  client = record {
    encode = λ e. record {
      id = Guid.to_string e.id;
      rev = e.rev;
      kind = e.kind;
      client_secret_hash = e.client_secret_hash;
      allowed_scopes = Scope.to_string e.allowed_scopes;
      allowed_redirect_uris = e.allowed_redirect_uris;
    };
    decode = λ d. ok (record {
      id = Guid.from d.id;
      rev = d.rev;
      kind = d.kind;
      client_secret_hash = d.client_secret_hash;
      allowed_scopes = Scope.from d.allowed_scopes;
      allowed_redirect_uris = d.allowed_redirect_uris;
    });
  };
  clients = unread;
  access = unread;
  refresh = unread;
  code = unread;
  stored = unread;
  done = given tt;
}

abbrev keeper : Enforcer archive
keeper = record {
  db = record { name = "rbac"; partitioned = true };
  model = record { principals = [] };
}

abbrev before : Store Registration
before = record {
  clock = 5;
  drawn = 7;
  docs = set Registration "oauth/client:app" (some app) (λ doc. none);
}

abbrev after_deletion : Store Registration
after_deletion = (delete_client archive clients oauth_db keeper registrar root "app" before).1

own : OwnClientIds archive clients oauth_db keeper registrar root
unfolding Couch.Database.get fetch client_guid contains
own id w entity h = elim (Option-cases (w.docs (path oauth_db (Guid.to_string (client_guid id))))) [
  | inl nothing ↦ absurd (ground arith)
  | inr (d, there) ↦
      let same : entity.id
          ≡ Guid.from (after slash (path oauth_db (Guid.to_string (client_guid id)))) =
        ground arith in
      same
      ∙ ap Guid.from (after_slash oauth_db (Guid.to_string (client_guid id)) refl)
      ∙ ap Guid.from (to_string-from (append "client:" id))
]

abbrev response : ClientResponse archive
response = record {
  client_id = "app";
  kind = "confidential";
  allowed_scopes = read_scope;
  allowed_redirect_uris = [];
}

deletes :
    delete_client archive clients oauth_db keeper registrar root "app" before
    ≡ (ok response, after_deletion)
unfolding delete_client enseada.Http.Guard.authorize enseada.Oauth.Scope.matches
    enseada.Prelude.Sets.has enseada.Oauth.Scope.from enseada.Prelude.Sets.collect
    enseada.Prelude.Text.split enseada.Prelude.Sets.is_empty enseada.Prelude.Sets.intersection
    enseada.Rbac.Enforcer.evaluate enseada.Rbac.Model.check Guid.to_string Couch.Database.get
    Couch.Database.delete fetch Guid.from Guid.partitioned Guid.simple
    enseada.Oauth.Scope.is_full_scope enseada.Prelude.Sets.add contains enseada.Prelude.Text.before
    after client_guid Persistence.get_client Persistence.delete_client
    enseada.Oauth.Persistence.Entities.to_client Api.from_client Api.kind_name
    enseada.Oauth.Client.confidential_with_hash
deletes = refl

deleted_client_gone_example :
    (Persistence.get_client archive clients oauth_db "app" after_deletion).0 ≡ ok none
deleted_client_gone_example =
    deleted_client_gone archive clients oauth_db keeper registrar root "app" response before
      after_deletion (Store.laws Registration app at stamped) own deletes
