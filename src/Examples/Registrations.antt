-- ===== src/Examples/Registrations.antt =====
-- The platform whose documents are clients, with the theorems about their endpoints at concrete inputs.
use enseada.Prelude.{
  ℕ, String, append, true, false, Option, none, some, List, [], ◌∷◌, ◌≡◌, refl, ap, ◌∙◌, arith,
  eq_iff, inl, inr, Option-cases,
}
use enseada.Prelude.Exec.{ok, err}
use enseada.Platform.{Platform}
use enseada.Guid
use enseada.Guid.{Guid, simple}
use enseada.Secure.Hashes.{VerifiesOwnHashes}
use enseada.Couch.Database.{Codec, Database}
use enseada.Oauth.Scope
use enseada.Oauth.Scope.{Scope}
use enseada.Oauth.Client.{Client}
use enseada.Oauth.Persistence
use enseada.Oauth.Persistence.Clients.{reread}
use enseada.Oauth.Persistence.Entities.{ClientEntity, StoredKind, confidential}
use enseada.Oauth.Api
use enseada.Oauth.Api.{CreateClientPayload, ClientResponse, create_client}
use enseada.Oauth.Api.Lifecycle.{Follows, created_client_authenticates}
use enseada.Rbac.Enforcer.{Enforcer}
use enseada.Examples.Demo.{read_scope}
use enseada.Examples.Store.{Store}
use enseada.Examples.Kept.{Format, kept, coded, storing}
use enseada.Examples.Directory.{root}

-- A document of a client, with its id and its scope as texts.
pub record Registration : Type 0 where
  pub id : String
  pub rev : Option String
  pub kind : StoredKind
  pub client_secret_hash : Option String
  pub allowed_scopes : String
  pub allowed_redirect_uris : List String

abbrev pub app : Registration
app = record {
  id = "client:app";
  rev = some "1";
  kind = confidential;
  client_secret_hash = some "secret";
  allowed_scopes = "read";
  allowed_redirect_uris = [];
}

abbrev pub set_rev : Registration → String → Registration
set_rev client rev = record client { rev = some rev }

abbrev pub registry : Platform
registry = kept Registration app set_rev

abbrev revise : ClientEntity registry → String → ClientEntity registry
revise entity rev = record entity { rev = some rev }

abbrev format : Format Registration app set_rev revise (reread registry)
format = record {
  enc = λ e. record {
    id = Guid.to_string e.id;
    rev = e.rev;
    kind = e.kind;
    client_secret_hash = e.client_secret_hash;
    allowed_scopes = Scope.to_string e.allowed_scopes;
    allowed_redirect_uris = e.allowed_redirect_uris;
  };
  dec = λ d. record {
    id = Guid.from d.id;
    rev = d.rev;
    kind = d.kind;
    client_secret_hash = d.client_secret_hash;
    allowed_scopes = Scope.from d.allowed_scopes;
    allowed_redirect_uris = d.allowed_redirect_uris;
  };
  back = λ e. refl;
  commutes = λ e rev. refl;
  revised = λ e rev. refl;
}

-- Nothing is read from a document of another type.
abbrev pub given : {A : Type 0} → A → Codec registry A
given a = record { encode = λ x. app; decode = λ json. ok a }

abbrev unread : {A : Type 0} → Codec registry A
unread = record {
  encode = λ x. app;
  decode = λ json. err (record { message = "no"; status = none });
}

abbrev pub clients : Persistence.Codecs registry
clients = record {
  client = coded Registration app set_rev revise (reread registry) format;
  clients = given (record { offset = 0; rows = []; total_rows = 0 });
  access = unread;
  refresh = unread;
  code = unread;
  stored = given (record { ok = true; id = ""; rev = "1" });
  done = given tt;
}

abbrev pub oauth_db : Database
oauth_db = record { name = "oauth"; partitioned = true }

abbrev pub keeper : Enforcer registry
keeper = record {
  db = record { name = "rbac"; partitioned = true };
  model = record { principals = [] };
}

abbrev pub registrar : Scope
registrar = record { names = "clients:manage" ∷ [] }

abbrev pub no_clients : Store Registration
no_clients = record { clock = 5; drawn = 7; docs = λ doc. none }

abbrev payload : CreateClientPayload registry
payload = record {
  client_id = "web";
  kind = Api.confidential;
  client_secret = some "secret";
  allowed_scopes = read_scope;
  allowed_redirect_uris = "https://web/cb" ∷ [];
}

abbrev response : ClientResponse registry
response = record {
  client_id = "web";
  kind = "confidential";
  allowed_scopes = read_scope;
  allowed_redirect_uris = "https://web/cb" ∷ [];
}

abbrev one_client : Store Registration
one_client = (create_client registry clients oauth_db keeper registrar root payload no_clients).1

creates :
    create_client registry clients oauth_db keeper registrar root payload no_clients
    ≡ (ok response, one_client)
unfolding create_client enseada.Http.Guard.authorize enseada.Oauth.Scope.matches
    enseada.Prelude.Sets.has enseada.Oauth.Scope.from enseada.Prelude.Sets.collect
    enseada.Prelude.Text.split enseada.Prelude.Sets.is_empty enseada.Prelude.Sets.intersection
    enseada.Rbac.Enforcer.evaluate enseada.Rbac.Model.check enseada.Guid.to_string
    enseada.Secure.hash_password enseada.Couch.Database.get enseada.Couch.Database.put
    enseada.Couch.Database.fetch enseada.Guid.from enseada.Guid.partitioned enseada.Guid.simple
    enseada.Oauth.Scope.is_full_scope enseada.Prelude.Sets.add enseada.Prelude.Text.contains
    enseada.Prelude.Text.before enseada.Prelude.Text.after enseada.Secure.generate_token
    enseada.Secure.new Api.new_client enseada.Oauth.Client.new_confidential
    enseada.Oauth.Client.confidential_with_hash enseada.Oauth.Persistence.Entities.client_guid
    enseada.Oauth.Persistence.Entities.from_client enseada.Oauth.Persistence.Entities.to_client
    Persistence.save_client Api.from_client Api.kind_name
creates = refl

verifies : VerifiesOwnHashes registry
verifies salt password hash h = ground (arith, eq_iff hash password)

created_client_authenticates_example :
    (client : Client registry) × ((Persistence.get_client registry clients oauth_db "web"
        one_client).0
      ≡ ok (some client))
    × Follows registry payload (Scope.from (Scope.to_string read_scope)) client
created_client_authenticates_example =
    created_client_authenticates registry clients oauth_db keeper registrar root payload response
      no_clients one_client (storing Registration app set_rev revise (reread registry) format)
      verifies creates
