-- ===== src/Oauth/Persistence/Laws.antt =====
-- The storages of the database as those of the handler, with the laws that the single use of codes
-- and refresh tokens asks for.
use Prim.Native.String.{◌++◌}
use text.Mathlib.TextLemmas.{append_cancel_left}
use enseada.Prelude.{
  String, Option, none, some, ◌≡◌, ◌≢◌, sym, ap, ◌∙◌, subst, arith, inl, inr, Option-cases,
}
use enseada.Prelude.Exec.{Outcome, Outcome-cases, ok, total, continue-keeps}
use enseada.Platform.{Platform}
use enseada.Guid
use enseada.Guid.RoundTrip.{to_string-from}
use enseada.Couch
use enseada.Couch.Database
use enseada.Couch.Database.{Database, path}
use enseada.Couch.Documents.{
  Missing, DocumentLaws, get-Missing, get-keeps, put-keeps, delete-keeps, delete-Missing,
}
use enseada.Oauth.AccessToken
use enseada.Oauth.AccessToken.{AccessToken}
use enseada.Oauth.RefreshToken
use enseada.Oauth.RefreshToken.{RefreshToken}
use enseada.Oauth.Storage.{ClientStorage}
use enseada.Oauth.Handler.{OAuthHandler}
use enseada.Oauth.Handler.Exchange.SingleUse.{CodeLaws}
use enseada.Oauth.Handler.Exchange.Rotation.{AbsenceLaws}
use enseada.Oauth.Persistence.Entities.{
  AccessTokenEntity, RefreshTokenEntity, AuthorizationCodeEntity, access_guid, refresh_guid,
  code_guid, from_access, from_refresh, to_access, to_refresh,
}
use enseada.Oauth.Persistence.{
  Codecs, store_access, revoke_access, get_refresh, store_refresh, revoke_refresh, get_code,
  revoke_code, remove_access, remove_refresh, remove_code, access_tokens, refresh_tokens, codes,
}

module _ (p : Platform) (c : Codecs p) (db : Database) where
  open p use {World}

  -- The storages of the handler that the server makes, with any storage of clients.
  abbrev pub stored_handler : ClientStorage p → OAuthHandler p
  stored_handler clients = record {
    client_storage = clients;
    access_token_storage = access_tokens p c db;
    refresh_token_storage = refresh_tokens p c db;
    authorization_code_storage = codes p c db;
  }

  -- A document that is read has the id that it was asked for.
  pub record OwnIds : Type 0 where
    pub refresh_id :
        (id : String) (w : World) (e : RefreshTokenEntity p)
        → (Couch.Database.get p c.refresh db id w).0 ≡ ok (some e)
        → Guid.to_string e.id ≡ id
    pub code_id :
        (id : String) (w : World) (e : AuthorizationCodeEntity p)
        → (Couch.Database.get p c.code db id w).0 ≡ ok (some e)
        → Guid.to_string e.id ≡ id

  abbrev token_path : String → String
  token_path sig = path db (Guid.to_string (refresh_guid sig))

  abbrev code_path : String → String
  code_path sig = path db (Guid.to_string (code_guid sig))

  -- Different signatures have different documents.
  paths_differ : (a b : String) → a ≢ b → token_path a ≢ token_path b
  unfolding refresh_guid
  paths_differ a b differ same = differ (
      append_cancel_left "access_token:" a b (
        sym (to_string-from ("access_token:" ++ a))
        ∙ (append_cancel_left "/" _ _ (append_cancel_left db.name _ _ same)
            ∙ to_string-from ("access_token:" ++ b))))

  module _ (laws : DocumentLaws p) (ids : OwnIds) where
    refresh_revoked :
        (sig : String) (w w' : World)
        → revoke_refresh p c db sig w ≡ (ok tt, w')
        → Missing p w' (token_path sig)
    unfolding revoke_refresh remove_refresh
    refresh_revoked sig w w' e =
        let id : String = Guid.to_string (refresh_guid sig) in
        let looked : Outcome Couch.Error.Error (Option (RefreshTokenEntity p)) × World =
          Couch.Database.get p c.refresh db id w in
        elim (Outcome-cases looked.0) [
          | inl (o, read) ↦ elim (Option-cases o) [
            | inl nothing ↦ absurd (ground arith)
            | inr (entity, there) ↦ elim (Option-cases entity.rev) [
              | inl unsaved ↦ absurd (ground arith)
              | inr (rev, saved) ↦
                  subst (λ i. Missing p w' (path db i))
                    (ids.refresh_id id w entity (read ∙ ap ok there))
                    (delete-Missing p laws db c.done (Guid.to_string entity.id) rev looked.1 w'
                      (ground arith))
            ]
          ]
          | inr (inl (x, failed)) ↦ absurd (ground arith)
          | inr (inr panics) ↦ absurd (ground arith)
        ]

    code_revoked :
        (sig : String) (w w' : World)
        → revoke_code p c db sig w ≡ (ok tt, w')
        → Missing p w' (code_path sig)
    unfolding revoke_code remove_code
    code_revoked sig w w' e =
        let id : String = Guid.to_string (code_guid sig) in
        let looked : Outcome Couch.Error.Error (Option (AuthorizationCodeEntity p)) × World =
          Couch.Database.get p c.code db id w in
        elim (Outcome-cases looked.0) [
          | inl (o, read) ↦ elim (Option-cases o) [
            | inl nothing ↦ absurd (ground arith)
            | inr (entity, there) ↦ elim (Option-cases entity.rev) [
              | inl unsaved ↦ absurd (ground arith)
              | inr (rev, saved) ↦
                  subst (λ i. Missing p w' (path db i))
                    (ids.code_id id w entity (read ∙ ap ok there))
                    (delete-Missing p laws db c.done (Guid.to_string entity.id) rev looked.1 w'
                      (ground arith))
            ]
          ]
          | inr (inl (x, failed)) ↦ absurd (ground arith)
          | inr (inr panics) ↦ absurd (ground arith)
        ]

    refresh_not_found :
        (sig : String) (w : World)
        → Missing p w (token_path sig)
        → (get_refresh p c db sig w).0 ≡ none
    unfolding get_refresh
    refresh_not_found sig w missing =
        ground (arith, get-Missing p c.refresh db (Guid.to_string (refresh_guid sig)) w missing)

    code_not_found :
        (sig : String) (w : World) → Missing p w (code_path sig) → (get_code p c db sig w).0 ≡ none
    unfolding get_code
    code_not_found sig w missing =
        ground (arith, get-Missing p c.code db (Guid.to_string (code_guid sig)) w missing)

    removed-keeps :
        (doc : String) (found : Option (AccessTokenEntity p)) (w : World)
        → Missing p w doc
        → Missing p (remove_access p c db found w).1 doc
    unfolding remove_access
    removed-keeps doc none w missing = missing
    removed-keeps doc (some entity) w missing = elim (Option-cases entity.rev) [
      | inl unsaved ↦ subst (λ v. Missing p v doc) (ground arith) missing
      | inr (rev, saved) ↦
          subst (λ v. Missing p v doc) (ground arith)
            (delete-keeps p laws db c.done (Guid.to_string entity.id) rev doc w missing)
    ]

    access_revoked-keeps :
        (sig other : String) (w : World)
        → Missing p w (token_path sig)
        → Missing p (revoke_access p c db other w).1 (token_path sig)
    unfolding revoke_access
    access_revoked-keeps sig other w missing =
        continue-keeps (λ v. Missing p v (token_path sig)) _ (remove_access p c db) _
          (get-keeps p laws db c.access (Guid.to_string (access_guid other)) (token_path sig) w
            missing)
          (λ found. removed-keeps (token_path sig) found _ (
            get-keeps p laws db c.access (Guid.to_string (access_guid other)) (token_path sig) w
              missing))

    access_stored-keeps :
        (sig other : String) (t : AccessToken p) (w : World)
        → other ≢ sig
        → Missing p w (token_path sig)
        → Missing p (store_access p c db other t w).1 (token_path sig)
    unfolding store_access to_access from_access access_guid AccessToken.new Guid.from refresh_guid
    access_stored-keeps sig other t w differ missing =
        let entity : AccessTokenEntity p = from_access p other t in
        let put : Missing p
            (Couch.Database.put p c.access c.stored db (Guid.to_string entity.id) entity w).1
            (token_path sig) =
          put-keeps p laws db c.access c.stored (Guid.to_string entity.id) (token_path sig) entity w
            (paths_differ other sig differ) missing in
        continue-keeps (λ v. Missing p v (token_path sig)) _
          (λ _. total (to_access p entity (AccessToken.token p t))) _ put
          (λ _. laws.after_clock (token_path sig) _ (laws.after_clock (token_path sig) _ put))

    refresh_stored-keeps :
        (sig other : String) (t : RefreshToken p) (w : World)
        → other ≢ sig
        → Missing p w (token_path sig)
        → Missing p (store_refresh p c db other t w).1 (token_path sig)
    unfolding store_refresh to_refresh from_refresh refresh_guid RefreshToken.new
    refresh_stored-keeps sig other t w differ missing =
        let entity : RefreshTokenEntity p = from_refresh p other t in
        let put : Missing p
            (Couch.Database.put p c.refresh c.stored db (Guid.to_string entity.id) entity w).1
            (token_path sig) =
          put-keeps p laws db c.refresh c.stored (Guid.to_string entity.id) (token_path sig) entity
            w (paths_differ other sig differ) missing in
        continue-keeps (λ v. Missing p v (token_path sig)) _
          (λ _. total (to_refresh p entity (RefreshToken.token p t))) _ put
          (λ _. laws.after_clock (token_path sig) _ (laws.after_clock (token_path sig) _ put))

  access_printed :
      (sig : String) (t t' : AccessToken p) (w : World)
      → (store_access p c db sig t w).0 ≡ ok t'
      → AccessToken.to_string p t' ≡ AccessToken.to_string p t
  unfolding store_access to_access AccessToken.new AccessToken.to_string AccessToken.token
  access_printed sig t t' w e = ground arith

  refresh_printed :
      (sig : String) (t t' : RefreshToken p) (w : World)
      → (store_refresh p c db sig t w).0 ≡ ok t'
      → RefreshToken.to_string p t' ≡ RefreshToken.to_string p t
  unfolding store_refresh to_refresh RefreshToken.new RefreshToken.to_string RefreshToken.token
  refresh_printed sig t t' w e = ground arith

  -- The storages obey the laws of the single use of refresh tokens, if the database obeys its own
  -- and documents have the ids that they are read under.
  pub stored-AbsenceLaws :
      (clients : ClientStorage p) → DocumentLaws p → OwnIds → AbsenceLaws p (stored_handler clients)
  stored-AbsenceLaws clients laws ids = record {
    Absent = λ w sig. Missing p w (token_path sig);
    not_found = refresh_not_found laws ids;
    revoked = refresh_revoked laws ids;
    after_clock = λ sig. laws.after_clock (token_path sig);
    after_fill = λ sig. laws.after_fill (token_path sig);
    after_access_revoked = access_revoked-keeps laws ids;
    after_access_stored = access_stored-keeps laws ids;
    access_returned = access_printed;
    after_refresh_stored = refresh_stored-keeps laws ids;
    refresh_returned = refresh_printed;
  }

  -- The storage of codes does not find a code that it revoked, under the same conditions.
  pub stored-CodeLaws :
      (clients : ClientStorage p) → DocumentLaws p → OwnIds → CodeLaws p (stored_handler clients)
  stored-CodeLaws clients laws ids = record {
    revoked_absent =
        λ sig w w' e. code_not_found laws ids sig w' (code_revoked laws ids sig w w' e);
  }
