-- ===== src/Oauth/Handler/Exchange/Rotation.antt =====
-- What an exchange of a refresh token leaves behind under the token's signature.
use enseada.Prelude.{
  ℕ, String, ◌≡◌, ◌≢◌, refl, arith, ap, ◌∙◌, List, Option, none, some, Option-cases, inl, inr,
  subst,
}
use enseada.Prelude.Exec.{Outcome, Exec, ok, err, panic, expected, continue, pure}
use enseada.Platform.{Platform}
use enseada.Secure.{SecureSecret, generate_token}
use enseada.Secure
use enseada.Oauth.Error
use enseada.Oauth.Error.{Error, invalid_grant}
use enseada.Oauth.Session.{Session}
use enseada.Oauth.Client.{Client}
use enseada.Oauth.AccessToken.{AccessToken}
use enseada.Oauth.AccessToken
use enseada.Oauth.RefreshToken.{RefreshToken}
use enseada.Oauth.RefreshToken
use enseada.Oauth.Request.{RefreshGrant}
use enseada.Oauth.Response.{TokenResponse}
use enseada.Oauth.Handler.{
  BasicAuth, OAuthHandler, signature, generate_token_set, store_access, issue_access, store_refresh,
  issue_refresh, respond_with, complete_token_set,
}
use enseada.Oauth.Handler.Exchange.{validate_refresh, handle_refresh}

expected-eq-ok : {A E F : Type 0} (r : Outcome E A) (a : A) → expected {F = F} r ≡ ok a → r ≡ ok a
expected-eq-ok (ok b) a e = ground arith
expected-eq-ok (err x) a e = ground arith
expected-eq-ok panic a e = ground arith

-- A sequence that returns had a first step that returned.
continue-eq-ok :
    {W E A B : Type 0} (r : Outcome E A) (f : A → Exec W E B) (w w' : W) (b : B)
    → continue r f w ≡ (ok b, w')
    → (a : A) × (r ≡ ok a) × (f a w ≡ (ok b, w'))
continue-eq-ok (ok a) f w w' b e = (a, refl, e)
continue-eq-ok (err x) f w w' b e = absurd (ground arith)
continue-eq-ok panic f w w' b e = absurd (ground arith)

module _ (p : Platform) (h : OAuthHandler p) where
  open p use {World, utc_now, fill}
  open h use {access_token_storage, refresh_token_storage}

  -- What the storages promise of a signature under which there is no refresh token: it is not
  -- found, a revocation brings it about, and nothing undoes it but storing a token of either kind
  -- under that very signature. What is returned of a token that was stored prints as the token did.
  pub record AbsenceLaws : Type 1 where
    pub Absent : World → String → Type 0
    pub not_found :
        (sig : String) (w : World) → Absent w sig → (refresh_token_storage.get_token sig w).0 ≡ none
    pub revoked :
        (sig : String) (w w' : World)
        → refresh_token_storage.revoke_token sig w ≡ (ok tt, w')
        → Absent w' sig
    pub after_clock : (sig : String) (w : World) → Absent w sig → Absent (utc_now w).1 sig
    pub after_fill : (sig : String) (n : ℕ) (w : World) → Absent w sig → Absent (fill n w).1 sig
    pub after_access_revoked :
        (sig other : String) (w : World)
        → Absent w sig
        → Absent (access_token_storage.revoke_token other w).1 sig
    pub after_access_stored :
        (sig other : String) (t : AccessToken p) (w : World)
        → other ≢ sig
        → Absent w sig
        → Absent (access_token_storage.store_token other t w).1 sig
    pub access_returned :
        (sig : String) (t t' : AccessToken p) (w : World)
        → (access_token_storage.store_token sig t w).0 ≡ ok t'
        → AccessToken.to_string p t' ≡ AccessToken.to_string p t
    pub after_refresh_stored :
        (sig other : String) (t : RefreshToken p) (w : World)
        → other ≢ sig
        → Absent w sig
        → Absent (refresh_token_storage.store_token other t w).1 sig
    pub refresh_returned :
        (sig : String) (t t' : RefreshToken p) (w : World)
        → (refresh_token_storage.store_token sig t w).0 ≡ ok t'
        → RefreshToken.to_string p t' ≡ RefreshToken.to_string p t

  -- Neither of the tokens that were issued has the signature.
  abbrev pub NewTokens : TokenResponse p → String → Type 0
  NewTokens res sig =
      (signature p res.access_token ≢ sig)
      × ((t : String) → res.refresh_token ≡ some t → signature p t ≢ sig)

  module _ (laws : AbsenceLaws) (sig : String) where
    open laws use {Absent}

    generate_token-Absent : (w : World) → Absent w sig → Absent (generate_token p 32 w).1 sig
    unfolding generate_token
    generate_token-Absent w a = after_draw (fill 32 w).0 (fill 32 w).1 (laws.after_fill sig 32 w a)
      where
        after_draw :
            (r : Outcome String (List ℕ)) (v : World)
            → Absent v sig
            → Absent (continue r (λ buf. pure (Secure.new buf)) v).1 sig
        after_draw (ok buf) v b = b
        after_draw (err x) v b = b
        after_draw panic v b = b

    store_access-Absent :
        (session : Session) (s : SecureSecret) (w w' : World) (issued : String × AccessToken p)
        → store_access p h session s w ≡ (ok issued, w')
        → signature p (AccessToken.to_string p issued.1) ≢ sig
        → Absent w sig
        → Absent w' sig
    unfolding store_access AccessToken.new AccessToken.to_string AccessToken.token
    store_access-Absent session s w w' issued e other a =
        let own : String = signature p (Secure.to_string p s) in
        let made : AccessToken p × World = AccessToken.new p s session (p.minutes 5) w in
        let stored : Outcome Error (AccessToken p) × World =
          access_token_storage.store_token own made.0 made.1 in
        let (t, returned, rest) =
          continue-eq-ok stored.0 (λ (t : AccessToken p). pure (own, t)) stored.1 w' issued e in
        let given : AccessToken.to_string p t ≡ AccessToken.to_string p made.0 =
          laws.access_returned own made.0 t made.1 returned in
        let kept : issued ≡ (own, t) = ground arith in
        let left : stored.1 ≡ w' = ground arith in
        subst (λ x. Absent x sig) left
          (laws.after_access_stored sig own made.0 made.1
            (λ same. other (
              ap (λ i. signature p (AccessToken.to_string p i.1)) kept
              ∙ ap (signature p) given
              ∙ same))
            (laws.after_clock sig w a))

    issue_access-Absent :
        (session : Session) (w w' : World) (issued : String × AccessToken p)
        → issue_access p h session w ≡ (ok issued, w')
        → signature p (AccessToken.to_string p issued.1) ≢ sig
        → Absent w sig
        → Absent w' sig
    unfolding issue_access
    issue_access-Absent session w w' issued e other a =
        let drawn : Outcome String SecureSecret × World = generate_token p 32 w in
        let (s, made, rest) =
          continue-eq-ok (expected drawn.0) (store_access p h session) drawn.1 w' issued e in
        store_access-Absent session s drawn.1 w' issued rest other (generate_token-Absent w a)

    store_refresh-Absent :
        (session : Session) (related : String) (s : SecureSecret) (w w' : World)
        (t : RefreshToken p)
        → store_refresh p h session related s w ≡ (ok t, w')
        → signature p (RefreshToken.to_string p t) ≢ sig
        → Absent w sig
        → Absent w' sig
    unfolding store_refresh RefreshToken.new RefreshToken.to_string RefreshToken.token
    store_refresh-Absent session related s w w' t e other a =
        let own : String = signature p (Secure.to_string p s) in
        let made : RefreshToken p × World = RefreshToken.new p s session (p.days 1) related w in
        let stored : Outcome Error (RefreshToken p) × World =
          refresh_token_storage.store_token own made.0 made.1 in
        let given : RefreshToken.to_string p t ≡ RefreshToken.to_string p made.0 =
          laws.refresh_returned own made.0 t made.1 (ground arith) in
        let left : stored.1 ≡ w' = ground arith in
        subst (λ x. Absent x sig) left
          (laws.after_refresh_stored sig own made.0 made.1
            (λ same. other (ap (signature p) given ∙ same)) (laws.after_clock sig w a))

    issue_refresh-Absent :
        (session : Session) (related : String) (w w' : World) (t : RefreshToken p)
        → issue_refresh p h session related w ≡ (ok t, w')
        → signature p (RefreshToken.to_string p t) ≢ sig
        → Absent w sig
        → Absent w' sig
    unfolding issue_refresh
    issue_refresh-Absent session related w w' t e other a =
        let drawn : Outcome String SecureSecret × World = generate_token p 32 w in
        let (s, made, rest) =
          continue-eq-ok (expected drawn.0) (store_refresh p h session related) drawn.1 w' t e in
        store_refresh-Absent session related s drawn.1 w' t rest other (generate_token-Absent w a)

    -- The answer names the two tokens, and composing it only reads the clock.
    respond_with-Absent :
        (session : Session) (access : AccessToken p) (refresh : RefreshToken p) (w w' : World)
        (res : TokenResponse p)
        → respond_with p h session access refresh w ≡ (ok res, w')
        → (Absent w sig → Absent w' sig)
          × (res.access_token ≡ AccessToken.to_string p access)
          × (res.refresh_token ≡ some (RefreshToken.to_string p refresh))
    unfolding respond_with AccessToken.expires_in
    respond_with-Absent session access refresh w w' res e =
        let left : (utc_now w).1 ≡ w' = ground arith in
        (λ a. subst (λ x. Absent x sig) left (laws.after_clock sig w a), ground arith, ground arith)

    generate_token_set-Absent :
        (session : Session) (w w' : World) (res : TokenResponse p)
        → generate_token_set p h session w ≡ (ok res, w')
        → NewTokens res sig
        → Absent w sig
        → Absent w' sig
    unfolding generate_token_set complete_token_set
    generate_token_set-Absent session w w' res e (new_access, new_refresh) a =
        let first : Outcome Error (String × AccessToken p) × World = issue_access p h session w in
        let (issued, e1, rest) =
          continue-eq-ok first.0 (complete_token_set p h session) first.1 w' res e in
        let second : Outcome Error (RefreshToken p) × World =
          issue_refresh p h session issued.0 first.1 in
        let (refresh, e2, answer) =
          continue-eq-ok second.0 (respond_with p h session issued.1) second.1 w' res rest in
        let (responded, named, refresh_named) =
          respond_with-Absent session issued.1 refresh second.1 w' res answer in
        responded (
          issue_refresh-Absent session issued.0 first.1 second.1 refresh (ground arith)
            (new_refresh _ refresh_named)
            (issue_access-Absent session w first.1 issued (ground arith)
              (λ same. new_access (ap (signature p) named ∙ same)) a))

    -- The world after an exchange that succeeded has no refresh token under the signature.
    absent_after :
        (req : RefreshGrant) (w w' : World) (res : TokenResponse p)
        → signature p req.refresh_token ≡ sig
        → NewTokens res sig
        → handle_refresh p h req w ≡ (ok res, w')
        → Absent w' sig
    unfolding handle_refresh
    absent_after req w w' res same new e =
        elim (Option-cases (refresh_token_storage.get_token sig w).0) [
          | inl missing ↦ absurd (ground arith)
          | inr (token, stored) ↦
              let v : World =
                (RefreshToken.is_expired p token (refresh_token_storage.get_token sig w).1).1 in
              let u : World = (refresh_token_storage.revoke_token sig v).1 in
              let t : World =
                (access_token_storage.revoke_token token.related_access_token_signature u).1 in
              let gone : Absent u sig = laws.revoked sig v u (ground arith) in
              let issued : generate_token_set p h token.session t ≡ (ok res, w') = ground arith in
              generate_token_set-Absent token.session t w' res issued new
                (laws.after_access_revoked sig _ u gone)
        ]

  absent_not_validated :
      (req : RefreshGrant) (client_auth : Option BasicAuth) (w w' : World) (client : Client p)
      → (refresh_token_storage.get_token (signature p req.refresh_token) w).0 ≡ none
      → validate_refresh p h req client_auth w ≢ (ok client, w')
  unfolding validate_refresh
  absent_not_validated req client_auth w w' client absent e = ground arith

  absent_not_handled :
      (req : RefreshGrant) (w : World)
      → (refresh_token_storage.get_token (signature p req.refresh_token) w).0 ≡ none
      → (handle_refresh p h req w).0 ≡ err (Error.new invalid_grant "invalid refresh token")
  unfolding handle_refresh
  absent_not_handled req w absent = ground arith

  -- Once a refresh token was exchanged, a request with that token is neither validated, whatever
  -- else it says and whoever sends it, nor handled, if the storages obey `AbsenceLaws` and neither
  -- of the tokens that were issued has the same signature.
  pub refresh_single_use :
      (laws : AbsenceLaws) (req again : RefreshGrant) (client_auth : Option BasicAuth)
      (w w' w2 : World) (res : TokenResponse p) (client : Client p)
      → handle_refresh p h req w ≡ (ok res, w')
      → NewTokens res (signature p req.refresh_token)
      → again.refresh_token ≡ req.refresh_token
      → (validate_refresh p h again client_auth w' ≢ (ok client, w2))
        × ((handle_refresh p h again w').0 ≡ err (Error.new invalid_grant "invalid refresh token"))
  refresh_single_use laws req again client_auth w w' w2 res client e new same =
      let absent : (refresh_token_storage.get_token (signature p again.refresh_token) w').0 ≡ none =
        rw same (
          laws.not_found _ w'
            (absent_after laws (signature p req.refresh_token) req w w' res refl new e)) in
      (
        absent_not_validated again client_auth w' w2 client absent,
        absent_not_handled again w' absent,
      )
