-- ===== src/Oauth/Handler/Revoke/Ownership.antt =====
-- Which token a revocation is about, and whose it is.
use enseada.Prelude.{
  String, false, Option, none, some, ◌≡◌, inl, inr, arith, ◌==◌, eq_iff, ◌≢◌, Option-cases,
  Bool-cases,
}
use enseada.Prelude.Exec.{ok, err, Outcome}
use enseada.Oauth.Error.{Error}
use enseada.Platform.{Platform}
use enseada.Oauth.Session.{Session}
use enseada.Oauth.AccessToken.{AccessToken}
use enseada.Oauth.RefreshToken.{RefreshToken}
use enseada.Oauth.Token.{TokenTypeHint}
use enseada.Oauth.Request.{RevocationRequest}
use enseada.Oauth.Response.{revoked, RevocationResponse}
use enseada.Oauth.Handler.{OAuthHandler, signature}
use enseada.Oauth.Handler.Revoke.{
  denied, handle, handle_hint, search_both, search_from, search_refresh, revoke_access,
  revoke_refresh, revoke_found_access,
}

module _ (p : Platform) (h : OAuthHandler p) where
  open p use {World}
  open h use {access_token_storage, refresh_token_storage}

  abbrev access_session : Option (AccessToken p) → Option Session
  access_session none = none
  access_session (some token) = some token.session

  abbrev refresh_session : Option (RefreshToken p) → Option Session
  refresh_session none = none
  refresh_session (some token) = some token.session

  abbrev pub target_access : String → World → Option Session × World
  target_access sig w =
      let (found, w') = access_token_storage.get_token sig w in (access_session found, w')

  abbrev pub target_refresh : String → World → Option Session × World
  target_refresh sig w =
      let (found, w') = refresh_token_storage.get_token sig w in (refresh_session found, w')

  abbrev pub or_refresh : String → Option Session × World → Option Session × World
  or_refresh sig (none, w) = target_refresh sig w
  or_refresh sig (some session, w) = (some session, w)

  -- The session of the token that a revocation is about, and the world after the look-ups: with a
  -- hint only that kind is looked up, and otherwise an access token and then a refresh token.
  unfoldable pub target : Option TokenTypeHint → String → World → Option Session × World
  target (some TokenTypeHint.access_token) sig w = target_access sig w
  target (some TokenTypeHint.refresh_token) sig w = target_refresh sig w
  target (some TokenTypeHint.unknown) sig w = or_refresh sig (target_access sig w)
  target none sig w = or_refresh sig (target_access sig w)

  -- What a revocation does with the session of the token that it is about: a token of another client
  -- is denied, and without a token it succeeds; in both cases in the world after the look-ups.
  abbrev OnlyOwn :
      String → Option Session × World → Outcome Error RevocationResponse × World → Type 0
  OnlyOwn requester found result =
      ((owner : Session)
        → found.0 ≡ some owner
        → (owner.client_id == requester) ≡ false
        → result ≡ (err denied, found.1))
      × (found.0 ≡ none → result ≡ (ok revoked, found.1))

  access-OnlyOwn :
      (requester sig : String) (w : World)
      → OnlyOwn requester
          (target_access sig w)
          (handle_hint p h (some TokenTypeHint.access_token) requester sig w)
  unfolding handle_hint revoke_access
  access-OnlyOwn requester sig w = elim (Option-cases (access_token_storage.get_token sig w).0) [
    | inl missing ↦ (λ owner found other. ground arith, λ absent. ground arith)
    | inr (token, stored) ↦ (λ owner found other. ground arith, λ absent. ground arith)
  ]

  refresh-OnlyOwn :
      (requester sig : String) (w : World)
      → OnlyOwn requester
          (target_refresh sig w)
          (handle_hint p h (some TokenTypeHint.refresh_token) requester sig w)
  unfolding handle_hint revoke_refresh
  refresh-OnlyOwn requester sig w = elim (Option-cases (refresh_token_storage.get_token sig w).0) [
    | inl missing ↦ (λ owner found other. ground arith, λ absent. ground arith)
    | inr (token, stored) ↦ (λ owner found other. ground arith, λ absent. ground arith)
  ]

  both-OnlyOwn :
      (requester sig : String) (w : World)
      → OnlyOwn requester (or_refresh sig (target_access sig w)) (search_both p h requester sig w)
  unfolding search_both search_from search_refresh revoke_found_access revoke_refresh
  both-OnlyOwn requester sig w = elim (Option-cases (access_token_storage.get_token sig w).0) [
    | inl missing ↦
        elim (Option-cases
          (refresh_token_storage.get_token sig (access_token_storage.get_token sig w).1).0) [
            | inl gone ↦ (λ owner found other. ground arith, λ absent. ground arith)
            | inr (token, stored) ↦ (λ owner found other. ground arith, λ absent. ground arith)
          ]
    | inr (token, stored) ↦ (λ owner found other. ground arith, λ absent. ground arith)
  ]

  hint-OnlyOwn :
      (hint : Option TokenTypeHint) (requester sig : String) (w : World)
      → OnlyOwn requester (target hint sig w) (handle_hint p h hint requester sig w)
  unfolding target handle_hint
  hint-OnlyOwn (some TokenTypeHint.access_token) = access-OnlyOwn
  hint-OnlyOwn (some TokenTypeHint.refresh_token) = refresh-OnlyOwn
  hint-OnlyOwn (some TokenTypeHint.unknown) = both-OnlyOwn
  hint-OnlyOwn none = both-OnlyOwn

  -- A revocation of a token that is found and whose session is of another client is denied, in
  -- the world after the look-ups: nothing is revoked.
  pub revoke_only_own :
      (req : RevocationRequest) (session owner : Session) (w : World)
      → (target req.token_type_hint (signature p req.token) w).0 ≡ some owner
      → owner.client_id ≢ session.client_id
      → handle p h req session w
        ≡ (err denied, (target req.token_type_hint (signature p req.token) w).1)
  unfolding handle
  revoke_only_own req session owner w found other =
      (hint-OnlyOwn req.token_type_hint session.client_id (signature p req.token) w).0 owner found
        (elim (Bool-cases (owner.client_id == session.client_id)) [
          | inl same ↦ absurd (other ((eq_iff owner.client_id session.client_id).0 same))
          | inr differs ↦ differs
        ])

  -- A revocation of a token that is not found succeeds, in the world after the look-ups.
  pub revoke_not_found :
      (req : RevocationRequest) (session : Session) (w : World)
      → (target req.token_type_hint (signature p req.token) w).0 ≡ none
      → handle p h req session w
        ≡ (ok revoked, (target req.token_type_hint (signature p req.token) w).1)
  unfolding handle
  revoke_not_found req session w absent =
      (hint-OnlyOwn req.token_type_hint session.client_id (signature p req.token) w).1 absent
