-- ===== src/Examples/Documents.antt =====
-- The platform whose documents are those of codes and tokens, and the storages over it.
use enseada.Prelude.{ℕ, String, true, Option, none, some, [], ◌∷◌, ◌==◌, if◌then◌else◌}
use enseada.Prelude.Text.{after}
use enseada.Prelude.Exec.{Outcome, ok, err}
use enseada.Platform.{Platform}
use enseada.Guid
use enseada.Guid.{Guid}
use enseada.Couch.Error.{TransportError}
use enseada.Couch.Documents.{DocumentLaws}
use enseada.Oauth.Session.{Session}
use enseada.Oauth.Client.{Client, confidential}
use enseada.Oauth.Storage.{ClientStorage}
use enseada.Oauth.Persistence.{Codecs}
use enseada.Examples.Store
use enseada.Examples.Store.{slash, Store, store, with_status}
use enseada.Examples.Demo.{app_session, read_scope}

-- A document of a code or a token.
pub record Document : Type 0 where
  pub id : Guid
  pub rev : Option String
  pub session : Session
  pub expiration : ℕ
  pub related : String

abbrev pub Documents : Type 0
Documents = Store Document

abbrev pub set : String → Option Document → (String → Option Document) → String → Option Document
set = Store.set Document

abbrev pub blank : Document
blank = record {
  id = record { partition = none; id = "" };
  rev = some "1";
  session = app_session;
  expiration = 0;
  related = "";
}

-- A document is answered with the id of its path.
abbrev pub at : String → Document → Document
at doc d = record d { id = Guid.from (after slash doc) }

abbrev pub stamped : Document → Document
stamped d = record d { rev = some "1" }

abbrev pub couch : Platform
couch = store Document blank at stamped

abbrev pub app : Client couch
app = record {
  client_id = "app";
  kind = confidential "secret";
  allowed_scopes = read_scope;
  allowed_redirect_uris = [];
}

abbrev pub clients : ClientStorage couch
clients = record {
  list_clients =
      λ limit cursor w. (ok (record { count = 1; next_cursor = none; items = app ∷ [] }), w);
  get_client = λ id w. (if id == "app" then some app else none, w);
  save_client = λ client w. (ok client, w);
  delete_client = λ client w. (ok tt, w);
}

abbrev unread : {A : Type 0} → Document → Outcome TransportError A
unread d = err (with_status 500)

abbrev pub codecs : Codecs couch
codecs = record {
  client = record { encode = λ e. blank; decode = unread };
  clients = record {
    encode = λ e. blank;
    decode = λ d. ok (record { offset = 0; rows = []; total_rows = 0 });
  };
  access = record {
    encode = λ e. record {
      id = e.id;
      rev = e.rev;
      session = e.session;
      expiration = e.expiration;
      related = "";
    };
    decode =
        λ d. ok (record { id = d.id; rev = d.rev; session = d.session; expiration = d.expiration });
  };
  refresh = record {
    encode = λ e. record {
      id = e.id;
      rev = e.rev;
      session = e.session;
      expiration = e.expiration;
      related = e.related_access_token_signature;
    };
    decode = λ d. ok (record {
      id = d.id;
      rev = d.rev;
      session = d.session;
      expiration = d.expiration;
      related_access_token_signature = d.related;
    });
  };
  code = record {
    encode = λ e. record {
      id = e.id;
      rev = e.rev;
      session = e.session;
      expiration = e.expiration;
      related = "";
    };
    decode =
        λ d. ok (record { id = d.id; rev = d.rev; session = d.session; expiration = d.expiration });
  };
  stored = record {
    encode = λ e. blank;
    decode = λ d. ok (record { ok = true; id = ""; rev = "1" });
  };
  done = record { encode = λ e. blank; decode = λ d. ok tt };
}

pub laws : DocumentLaws couch
laws = Store.laws Document blank at stamped
