-- ===== src/Oauth/Persistence/SingleUse.antt =====
-- Exchanges of codes and refresh tokens with the storages of the database.
use enseada.Prelude.{Option, ◌≡◌, ◌≢◌}
use enseada.Prelude.Exec.{ok, err}
use enseada.Platform.{Platform}
use enseada.Couch.Database.{Database}
use enseada.Couch.Documents.{DocumentLaws}
use enseada.Oauth.Error
use enseada.Oauth.Error.{Error, invalid_grant}
use enseada.Oauth.Client.{Client}
use enseada.Oauth.Request.{CodeGrant, RefreshGrant}
use enseada.Oauth.Response.{TokenResponse}
use enseada.Oauth.Handler.Exchange.{
  handle_code, handle_refresh, validate_code, validate_refresh, invalid_code,
}
use enseada.Oauth.Storage.{ClientStorage}
use enseada.Oauth.Handler.{BasicAuth, signature}
use enseada.Oauth.Handler.Exchange.SingleUse.{code_single_use}
use enseada.Oauth.Handler.Exchange.Rotation.{NewTokens, refresh_single_use}
use enseada.Oauth.Persistence.{Codecs}
use enseada.Oauth.Persistence.Laws.{OwnIds, stored_handler, stored-AbsenceLaws, stored-CodeLaws}

module _ (p : Platform) (c : Codecs p) (db : Database) where
  open p use {World}

  -- With the storages of the database: once a refresh token was exchanged, a request with that token
  -- is neither validated, whatever else it says and whoever sends it, nor handled, if the database
  -- obeys `DocumentLaws`, documents have the ids that they are read under, and neither of the tokens
  -- that were issued has the same signature.
  pub stored_refresh_single_use :
      (clients : ClientStorage p) (laws : DocumentLaws p) (ids : OwnIds p c db)
      (req again : RefreshGrant) (client_auth : Option BasicAuth) (w w' w2 : World)
      (res : TokenResponse p) (client : Client p)
      → handle_refresh p (stored_handler p c db clients) req w ≡ (ok res, w')
      → NewTokens p (stored_handler p c db clients) res (signature p req.refresh_token)
      → again.refresh_token ≡ req.refresh_token
      → (validate_refresh p (stored_handler p c db clients) again client_auth w' ≢ (ok client, w2))
        × ((handle_refresh p (stored_handler p c db clients) again w').0
            ≡ err (Error.new invalid_grant "invalid refresh token"))
  stored_refresh_single_use clients laws ids =
      refresh_single_use p (stored_handler p c db clients)
        (stored-AbsenceLaws p c db clients laws ids)

  -- With the storage of the database: once an authorization code was exchanged, a request with that
  -- code is neither validated, whatever else it says and whoever sends it, nor handled, if the
  -- database obeys `DocumentLaws` and documents have the ids that they are read under.
  pub stored_code_single_use :
      (clients : ClientStorage p) (laws : DocumentLaws p) (ids : OwnIds p c db)
      (req again : CodeGrant) (client_auth : Option BasicAuth) (w w' w2 : World)
      (res : TokenResponse p) (client : Client p)
      → handle_code p (stored_handler p c db clients) req w ≡ (ok res, w')
      → again.code ≡ req.code
      → (validate_code p (stored_handler p c db clients) again client_auth w' ≢ (ok client, w2))
        × ((handle_code p (stored_handler p c db clients) again w').0 ≡ err invalid_code)
  stored_code_single_use clients laws ids =
      code_single_use p (stored_handler p c db clients) (stored-CodeLaws p c db clients laws ids)
