-- ===== src/Oauth/Handler/Exchange/Issued.antt =====
-- From the authorization that issues a code to the request that redeems it.
use enseada.Prelude.{String, some, ◌≡◌}
use enseada.Prelude.Exec.{ok}
use enseada.Platform.{Platform}
use enseada.Oauth.Scope.{Scope}
use enseada.Oauth.Session.{Session}
use enseada.Oauth.Client.{Client}
use enseada.Oauth.Code
use enseada.Oauth.Code.{AuthorizationCode}
use enseada.Oauth.Handler.{OAuthHandler}
use enseada.Oauth.Handler.Authorize

module _ (p : Platform) (h : OAuthHandler p) where
  open p use {World}
  open h use {authorization_code_storage}

  -- What a storage of codes promises: a code that it stored is found, with the client of its session
  -- and what is read back of the scope, and it answers with the code's text.
  pub record KeepsCodes (read_back : Scope → Scope) : Type 0 where
    pub kept :
        (sig : String) (code stored : AuthorizationCode p) (w w' : World)
        → authorization_code_storage.store_code sig code w ≡ (ok stored, w')
        → (found : AuthorizationCode p) × ((authorization_code_storage.get_code sig w').0
            ≡ some found)
          × (found.session.client_id ≡ code.session.client_id)
          × (found.session.scope ≡ read_back code.session.scope)
    pub returned :
        (sig : String) (code stored : AuthorizationCode p) (w w' : World)
        → authorization_code_storage.store_code sig code w ≡ (ok stored, w')
        → Code.to_string p stored ≡ Code.to_string p code
