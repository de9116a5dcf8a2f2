-- ===== src/Platform.antt =====
-- What the server takes from crates, the operating system and its configuration: the clock and the
-- arithmetic of `chrono`, the random source and the MAC of `ring`, `argon2`, `hex`, `base64`, `serde_json`
-- and `url`, and the secret key of `CONFIG`. None of it is defined here: a model is about any such platform.
use Prim.Native.Nat.{ℕ}
use Prim.Native.String.{String}
use mathlib.Core.Bool.{Bool}
use mathlib.Core.Option.{Option}
use mathlib.Core.List.{List}
use enseada.Prelude.Exec.{Outcome}
use enseada.Couch.Error.{TransportError}

-- An `i64`; `negsuc n` is -(n + 1).
pub data ℤ : Type 0 where
  pos : ℕ → ℤ
  negsuc : ℕ → ℤ

-- reqwest::Method
pub data Method : Type 0 where
  get put post delete : Method

-- The queries that the database client sends: `rev`, `partitioned`, `include_docs`, and `ListQuery`
-- (include_docs, limit, start_key).
pub data Query : Type 0 where
  rev : String → Query
  partitioned : Bool → Query
  include_docs : Query
  list_query : ℕ → Option String → Query

pub record Platform : Type 1 where
  -- Everything that the server can change or observe: the databases, the clock, the entropy.
  pub World : Type 0
  -- chrono::DateTime<Utc>, chrono::Duration
  pub Time : Type 0
  pub Span : Type 0
  -- Utc::now(): a reading, and the world after it.
  pub utc_now : World → Time × World
  pub plus : Time → Span → Time
  pub signed_duration_since : Time → Time → Span
  pub num_seconds : Span → ℤ
  pub lt : Time → Time → Bool
  pub minutes : ℕ → Span
  pub days : ℕ → Span
  -- SystemRandom::fill on a buffer of a size, or the message of its error.
  pub fill : ℕ → World → Outcome String (List ℕ) × World
  -- HMAC-SHA512: the key, then the message.
  pub hmac : String → String → List ℕ
  pub hex : List ℕ → String
  pub verify_encoded : String → String → Outcome String Bool
  pub hash_encoded : String → List ℕ → Outcome String String
  pub Url : Type 0
  pub parse_url : String → Outcome String Url
  pub url_eq : Url → Url → Bool
  pub base64_encode : String → String
  pub base64_decode : String → Outcome String (List ℕ)
  pub from_utf8 : List ℕ → Outcome String String
  -- serde_json::Value, and serde_json::to_string of a text
  pub Json : Type 0
  pub json_text : String → String
  -- An HTTP request to the document database, with the client's base URL and credentials: the
  -- answer's body as JSON, or an error of the transport or for a status from 400 on.
  pub request :
      Method → String → Option Json → Option Query → World → Outcome TransportError Json × World
  -- The same for a HEAD request, whose answer has no body.
  pub head : String → World → Outcome TransportError (Unit {0}) × World
  -- json!({"selector": …, "limit": …, "bookmark": …})
  pub find_body : Json → ℕ → Option String → Json
  -- json!({name: text})
  pub field_equals : String → String → Json
  -- glob::Pattern
  pub Pattern : Type 0
  pub parse_pattern : String → Option Pattern
  pub pattern_matches : Pattern → String → Bool
  -- CONFIG.secret_key()
  pub secret_key : String
