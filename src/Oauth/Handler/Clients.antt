-- ===== src/Oauth/Handler/Clients.antt =====
-- When the handler accepts a client: the exact conditions.
use enseada.Prelude.{String, true, Option, none, some, ◌≡◌, refl, ◌↔◌, ◌⊎◌, inl, inr, arith, any}
use enseada.Prelude.Exec.{Outcome, ok, err, panic}
use enseada.Platform.{Platform}
use enseada.Secure.{verify_password}
use enseada.Oauth.Scope.{Scope, is_superset}
use enseada.Oauth.Client.{Client, ClientKind, public, confidential}
use enseada.Oauth.Handler.{
  OAuthHandler, check_redirect_uri, check_secret, authenticate_client, validate_client,
}

module _ (p : Platform) where
  open p use {World, Url, parse_url, url_eq, verify_encoded}

  -- The text is a URL that the client allows, or there is none.
  abbrev pub Redirects : Client p → Option String → Type 0
  Redirects client none = Unit
  Redirects client (some redirect_uri) =
      (uri : Url) × (parse_url redirect_uri ≡ ok uri)
      × (any (λ u. url_eq u uri) client.allowed_redirect_uris ≡ true)

  -- The client is public, or the secret that is given verifies against its hash.
  abbrev pub Authentic : Client p → Option String → Type 0
  Authentic client given =
      (client.kind ≡ public)
      ⊎ ((hash secret : String) × (client.kind ≡ confidential hash)
          × (given ≡ some secret)
          × (verify_encoded hash secret ≡ ok true))

  redirect_sound :
      (client : Client p) (text : String)
      → check_redirect_uri p client (some text) ≡ ok tt
      → Redirects client (some text)
  unfolding check_redirect_uri
  redirect_sound client text h = go (parse_url text) refl
    where
      go : (r : Outcome String Url) → parse_url text ≡ r → Redirects client (some text)
      go (ok uri) e = (uri, e, ground arith)
      go (err m) e = absurd (ground arith)
      go panic e = absurd (ground arith)

  check_redirect_uri_iff :
      (client : Client p) (uri : Option String)
      → (check_redirect_uri p client uri ≡ ok tt) ↔ Redirects client uri
  unfolding check_redirect_uri
  check_redirect_uri_iff client none = (λ _. tt, λ _. refl)
  check_redirect_uri_iff client (some text) =
      (redirect_sound client text, λ r. let (uri, e, f) = r in ground arith)

  secret_sound :
      (kind : ClientKind) (given : Option String)
      → check_secret p kind given ≡ ok tt
      → (kind ≡ public)
        ⊎ ((hash secret : String) × (kind ≡ confidential hash)
            × (given ≡ some secret)
            × (verify_encoded hash secret ≡ ok true))
  unfolding check_secret verify_password
  secret_sound public given h = inl refl
  secret_sound (confidential hash) none h = absurd (ground arith)
  secret_sound (confidential hash) (some secret) h = inr (hash, secret, refl, refl, ground arith)

  -- A client is authenticated exactly if it is public, or a secret is given and the verification of
  -- it against the client's hash answers true.
  pub authenticate_client_iff :
      (client : Client p) (given : Option String)
      → (authenticate_client p client given ≡ ok tt) ↔ Authentic client given
  unfolding authenticate_client
  authenticate_client_iff client given = (secret_sound client.kind given, back)
    where
      back : Authentic client given → authenticate_client p client given ≡ ok tt
      back (inl e) = ground arith
      back (inr (hash, secret, e, f, g)) = ground arith

  module _ (h : OAuthHandler p) where
    open h use {client_storage}

    -- The client is registered, may use the scope, and may be redirected to the text, if any.
    pub record Accepted (client_id : String) (redirect_uri : Option String) (scope : Scope)
        (w : World) (client : Client p) : Type 0 where
      pub registered : (client_storage.get_client client_id w).0 ≡ some client
      pub covered : is_superset client.allowed_scopes scope ≡ true
      pub redirects : Redirects client redirect_uri

    -- A client is accepted exactly under those conditions, and the look-up is all that happens.
    pub validate_client_iff :
        (client_id : String) (redirect_uri : Option String) (scope : Scope) (w w' : World)
        (client : Client p)
        → (validate_client p h client_id redirect_uri scope w ≡ (ok client, w')) ↔ (
            Accepted client_id redirect_uri scope w client
            × ((client_storage.get_client client_id w).1 ≡ w'))
    unfolding validate_client
    validate_client_iff client_id redirect_uri scope w w' client = (there, back)
      where
        there :
            validate_client p h client_id redirect_uri scope w ≡ (ok client, w')
            → Accepted client_id redirect_uri scope w client
              × ((client_storage.get_client client_id w).1 ≡ w')
        there e = (
          record {
            registered = ground arith;
            covered = ground arith;
            redirects = (check_redirect_uri_iff client redirect_uri).0 (ground arith);
          },
          ground arith,
        )

        back :
            Accepted client_id redirect_uri scope w client
              × ((client_storage.get_client client_id w).1 ≡ w')
            → validate_client p h client_id redirect_uri scope w ≡ (ok client, w')
        back (a, e) = ground (
          arith,
          a.registered,
          a.covered,
          (check_redirect_uri_iff client redirect_uri).1 a.redirects,
        )
