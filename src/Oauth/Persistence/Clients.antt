-- ===== src/Oauth/Persistence/Clients.antt =====
-- Clients as documents, and their listing.
use enseada.Prelude.{
  ℕ, ◌≤◌, String, Option, none, some, ◌≡◌, refl, ap, ◌∙◌, arith, length, inl, inr, Option-cases,
}
use enseada.Prelude.Text.{contains}
use enseada.Prelude.Exec.{Outcome-cases, ok}
use enseada.Platform.{Platform}
use enseada.Couch
use enseada.Couch.Database
use enseada.Couch.Database.{Database}
use enseada.Couch.Responses.{RowsResponse}
use enseada.Guid
use enseada.Guid.RoundTrip.{to_string-from, colon_between, from_partitioned}
use enseada.Oauth.Scope
use enseada.Pagination.{Cursor, Page, from_rows_response, from_slice}
use enseada.Oauth.Client.{
  Client, ClientKind, public, confidential, new_public, confidential_with_hash,
}
use enseada.Oauth.Persistence.Entities.{ClientEntity, client_guid, from_client, to_client}
use enseada.Oauth.Persistence.{Codecs, cursor_text, list_clients, unwrap_all}

pub client_guid_id : (id : String) → (client_guid id).id ≡ id
unfolding client_guid Guid.partitioned contains
client_guid_id id =
    ap (λ g. g.id) (ap Guid.from (colon_between "client" id) ∙ from_partitioned "client" id refl)

client_guid_back : (id : String) → Guid.from (Guid.to_string (client_guid id)) ≡ client_guid id
unfolding client_guid
client_guid_back id = ap Guid.from (to_string-from _)

module _ (p : Platform) where
  -- The document with what is read back of its id and its scope, which are written as texts.
  abbrev pub reread : ClientEntity p → ClientEntity p
  reread entity = record entity {
    id = Guid.from (Guid.to_string entity.id);
    allowed_scopes = Scope.from (Scope.to_string entity.allowed_scopes);
  }

  -- The client with the scope that is read from the text of its own.
  abbrev pub with_scope_read : Client p → Client p
  with_scope_read client = record client {
    allowed_scopes = Scope.from (Scope.to_string client.allowed_scopes);
  }

  to_client-from_client : (client : Client p) → to_client p (from_client p client) ≡ some client
  unfolding to_client from_client new_public confidential_with_hash
  to_client-from_client client = go client.kind
    where
      go :
          (kind : ClientKind)
          → to_client p (from_client p (record client { kind = kind }))
            ≡ some (record client { kind = kind })
      go public = rw (client_guid_id client.client_id)
      go (confidential hash) = rw (client_guid_id client.client_id)

  -- Of a document in which a client is stored, with the id and the scope as they are read from their
  -- texts, the same client is made but for its scope, which is the one that is read from the text of
  -- the client's: whatever characters the id has, and for both kinds of clients.
  pub to_client-reread :
      (client : Client p)
      → to_client p (reread (from_client p client)) ≡ some (with_scope_read client)
  unfolding from_client
  to_client-reread client =
      ap (λ g. to_client p (record (reread (from_client p client)) { id = g }))
        (client_guid_back client.client_id)
      ∙ to_client-from_client (with_scope_read client)

  module _ (c : Codecs p) (db : Database) where
    -- The database answers a listing with at most as many rows as it is asked for.
    abbrev pub AtMost : ℕ → Option Cursor → p.World → Type 0
    AtMost limit cursor w =
        (res : RowsResponse (ClientEntity p))
        → (Couch.Database.list_partitioned p c.clients db "client" limit (cursor_text cursor) w).0
          ≡ ok res
        → length res.rows ≤ limit

    -- A listing of clients never leads to a next page, if the database answers with at most as many
    -- rows as it is asked for: it is asked for the limit, and not for one row more.
    pub list_clients_one_page :
        (limit : ℕ) (cursor : Option Cursor) (w w' : p.World) (page : Page (Client p))
        → AtMost limit cursor w
        → list_clients p c db limit cursor w ≡ (ok page, w')
        → page.next_cursor ≡ none
    unfolding list_clients from_rows_response from_slice
    list_clients_one_page limit cursor w w' page bound e =
        elim (Outcome-cases
          (Couch.Database.list_partitioned p c.clients db "client" limit (cursor_text cursor)
            w).0) [
              | inl (res, read) ↦
                  elim (Option-cases
                    (unwrap_all (to_client p) (from_rows_response p res limit).items)) [
                      | inl broken ↦ absurd (ground arith)
                      | inr (items, done) ↦ ground (arith, bound res read)
                    ]
              | inr (inl (x, failed)) ↦ absurd (ground arith)
              | inr (inr panics) ↦ absurd (ground arith)
            ]
