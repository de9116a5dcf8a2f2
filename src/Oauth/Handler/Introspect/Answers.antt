-- ===== src/Oauth/Handler/Introspect/Answers.antt =====
-- What an introspection answers.
use enseada.Prelude.{
  String, false, Option, none, some, ◌≡◌, ◌⊎◌, inl, inr, arith, Bool-cases, Option-cases, subst,
}
use enseada.Platform.{Platform}
use enseada.Oauth.AccessToken.{AccessToken}
use enseada.Oauth.AccessToken
use enseada.Oauth.RefreshToken.{RefreshToken}
use enseada.Oauth.RefreshToken
use enseada.Oauth.Token.{TokenTypeHint}
use enseada.Oauth.Request.{IntrospectionRequest}
use enseada.Oauth.Response.{IntrospectionResponse, inactive, active_response, from_token}
use enseada.Oauth.Handler.{OAuthHandler, signature}
use enseada.Oauth.Handler.Introspect.{
  handle, introspect_hint, introspect_access, introspect_refresh,
}

module _ (p : Platform) (h : OAuthHandler p) where
  open p use {World}
  open h use {access_token_storage, refresh_token_storage}

  -- Where an active answer comes from: a token that a look-up found in some world, not expired by
  -- the clock just after, and described by its own session, kind and expiration.
  pub data Describes (sig : String) (res : IntrospectionResponse p) : Type 0 where
    access :
        (v : World) (token : AccessToken p)
        → (access_token_storage.get_token sig v).0 ≡ some token
        → (AccessToken.is_expired p token (access_token_storage.get_token sig v).1).0 ≡ false
        → res ≡ active_response p (AccessToken.as_token p) token
        → Describes sig res
    refresh :
        (v : World) (token : RefreshToken p)
        → (refresh_token_storage.get_token sig v).0 ≡ some token
        → (RefreshToken.is_expired p token (refresh_token_storage.get_token sig v).1).0 ≡ false
        → res ≡ active_response p (RefreshToken.as_token p) token
        → Describes sig res

  -- An answer is inactive, or describes a token that was found and had not expired.
  abbrev pub Sound : String → IntrospectionResponse p → Type 0
  Sound sig res = (res ≡ inactive p) ⊎ Describes sig res

  access-Sound :
      (sig : String) (w : World) (res : IntrospectionResponse p)
      → (introspect_access p h sig w).0 ≡ some res
      → Sound sig res
  unfolding introspect_access from_token
  access-Sound sig w res e = elim (Option-cases (access_token_storage.get_token sig w).0) [
    | inl missing ↦ absurd (ground arith)
    | inr (token, stored) ↦
        elim (Bool-cases
          (AccessToken.is_expired p token (access_token_storage.get_token sig w).1).0) [
            | inl expired ↦ inl (ground arith)
            | inr fresh ↦ inr (access w token stored fresh (ground arith))
          ]
  ]

  refresh-Sound :
      (sig : String) (w : World) (res : IntrospectionResponse p)
      → (introspect_refresh p h sig w).0 ≡ some res
      → Sound sig res
  unfolding introspect_refresh from_token
  refresh-Sound sig w res e = elim (Option-cases (refresh_token_storage.get_token sig w).0) [
    | inl missing ↦ absurd (ground arith)
    | inr (token, stored) ↦
        elim (Bool-cases
          (RefreshToken.is_expired p token (refresh_token_storage.get_token sig w).1).0) [
            | inl expired ↦ inl (ground arith)
            | inr fresh ↦ inr (refresh w token stored fresh (ground arith))
          ]
  ]

  hint-Sound :
      (hint : Option TokenTypeHint) (sig : String) (w : World) (res : IntrospectionResponse p)
      → (introspect_hint p h hint sig w).0 ≡ some res
      → Sound sig res
  unfolding introspect_hint
  hint-Sound (some TokenTypeHint.access_token) sig w res e = access-Sound sig w res e
  hint-Sound (some TokenTypeHint.refresh_token) sig w res e = refresh-Sound sig w res e
  hint-Sound (some TokenTypeHint.unknown) sig w res e = absurd (ground arith)
  hint-Sound none sig w res e = absurd (ground arith)

  -- Whatever the request and the storages are, the answer of an introspection is inactive, or it
  -- describes a token that a look-up under the signature of the request's token found and that had
  -- not expired by the clock then.
  pub handle-Sound :
      (req : IntrospectionRequest) (w : World) → Sound (signature p req.token) (handle p h req w).0
  unfolding handle
  handle-Sound req w =
      let sig : String = signature p req.token in
      let hinted : Option (IntrospectionResponse p) × World =
        introspect_hint p h req.token_type_hint sig w in
      elim (Option-cases hinted.0) [
        | inr (res, e) ↦
            subst (Sound sig) (ground arith) (hint-Sound req.token_type_hint sig w res e)
        | inl none_hinted ↦ elim (Option-cases (introspect_access p h sig hinted.1).0) [
          | inr (res, e) ↦ subst (Sound sig) (ground arith) (access-Sound sig hinted.1 res e)
          | inl no_access ↦
              elim (Option-cases
                (introspect_refresh p h sig (introspect_access p h sig hinted.1).1).0) [
                  | inr (res, e) ↦ subst (Sound sig) (ground arith) (refresh-Sound sig _ res e)
                  | inl no_refresh ↦ inl (ground arith)
                ]
        ]
      ]
