-- ===== src/Server/Config.antt =====
-- server/src/config.rs, built without debug assertions, so that no file of variables is read. The table
-- of settings of the `config` crate is a parameter.
pub mod Bounds
mod Decimal
pub use Decimal.{decimal, decimal_lem}
use Prim.Native.String.{String, ◌++◌, len}
use enseada.Prelude.{◌+◌, Bool, Option, none, some, ltb, not, if◌then◌else◌}
use enseada.Prelude.Exec.{Outcome, ok, err, panic, Exec, pure, lift, ensure, ◌>>=◌, ◌>>◌}
use enseada.Platform.{Platform, ℤ, pos, negsuc}

pub record Logging : Type 0 where
  pub level : String
  pub rootlevel : String
  pub format : Option String

pub record CouchDb : Type 0 where
  pub url : Option String
  pub username : Option String
  pub password : Option String

pub record WithOptionalPath : Type 0 where
  pub path : Option String

pub record Tls : Type 0 where
  pub enabled : Bool
  pub cert : WithOptionalPath
  pub key : WithOptionalPath

pub record Secret : Type 0 where
  pub key : String

pub record Root : Type 0 where
  pub password : String

-- The defaults that are set: `None::<String>`, or a value.
pub data Value : Type 0 where
  absent : Value
  integer : ℤ → Value
  boolean : Bool → Value
  text : String → Value

-- Logging::format
unfoldable pub format : Logging → String
format log = elim log.format [ none ↦ "text" | some named ↦ named ]

-- Tls::cert_path, Tls::key_path
unfoldable pub cert_path : Tls → Option String
cert_path tls = tls.cert.path

unfoldable pub key_path : Tls → Option String
key_path tls = tls.key.path

-- The text of an `i64`
abbrev pub int_text : ℤ → String
int_text (pos n) = decimal n
int_text (negsuc n) = "-" ++ decimal (n + 1)

-- The text that has to be there.
abbrev expected : Option String → Outcome String String
expected none = panic
expected (some value) = ok value

-- CouchDb::username, CouchDb::password
unfoldable pub username : CouchDb → Outcome String String
username couchdb = expected couchdb.username

unfoldable pub password : CouchDb → Outcome String String
password couchdb = expected couchdb.password

module _ (p : Platform) where
  open p use {World, Url, parse_url}

  abbrev parsed : Outcome String Url → Outcome String Url
  parsed (ok url) = ok url
  parsed (err e) = panic
  parsed panic = panic

  -- CouchDb::url
  unfoldable pub url : CouchDb → Outcome String Url
  url couchdb = elim couchdb.url [ none ↦ panic | some given ↦ parsed (parse_url given) ]

  pub record Public : Type 0 where
    pub host : Url

  -- The port is an `i16`.
  pub record Configuration : Type 0 where
    pub port : ℤ
    pub log : Logging
    pub couchdb : CouchDb
    pub tls : Tls
    pub public : Public
    pub secret : Secret
    pub root : Root

  -- config::Config: the values of the environment, the defaults below them, the typed look-ups,
  -- and the whole table read as a `Configuration`.
  pub record Settings : Type 1 where
    pub Table : Type 0
    pub environment : World → Outcome String Table × World
    pub set_default : Table → String → Value → Outcome String Table
    pub get_int : Table → String → Outcome String ℤ
    pub get_bool : Table → String → Outcome String Bool
    pub get_str : Table → String → Outcome String String
    pub try_into : Table → Outcome String Configuration

  unfoldable pub secret_key : Configuration → String
  secret_key cfg = cfg.secret.key

  unfoldable pub root_password : Configuration → String
  root_password cfg = cfg.root.password

  unfoldable pub public_host : Configuration → Url
  public_host cfg = cfg.public.host

  module _ (s : Settings) where
    open s use {Table, environment, set_default, get_int, get_bool, get_str, try_into}

    abbrev pub set : String → Value → Table → Exec World String Table
    set key value table = lift (set_default table key value)

    abbrev protocol : Bool → String
    protocol enabled = if enabled then "https" else "http"

    -- The defaults, of which that of `public.host` goes by the port and by whether TLS is enabled.
    unfoldable pub with_defaults : Table → Exec World String Table
    with_defaults table = do
      t1 ← set "port" (integer (pos 9623)) table
      t2 ← set "tls.enabled" (boolean Bool.false) t1
      t3 ← set "tls.cert.path" absent t2
      t4 ← set "tls.key.path" absent t3
      port ← lift (get_int t4 "port")
      enabled ← lift (get_bool t4 "tls.enabled")
      t5 ← set "public.host" (text (protocol enabled ++ "://localhost:" ++ int_text port)) t4
      t6 ← set "log.level" (text "info") t5
      t7 ← set "log.rootlevel" (text "warn") t6
      set "couchdb.url" (text "http://localhost:5984") t7

    abbrev pub short_key : String
    short_key = "insecure secret key, must be at least 32 bytes"

    abbrev pub short_password : String
    short_password = "insecure root password, must be at least 8 characters"

    -- The two validations.
    unfoldable pub validate : Table → Exec World String (Unit {0})
    validate table = do
      secret_key ← lift (get_str table "secret.key")
      ensure (not (ltb (len secret_key) 32)) short_key
      root_pwd ← lift (get_str table "root.password")
      ensure (not (ltb (len root_pwd) 8)) short_password

    -- Configuration::new
    unfoldable pub new : Exec World String Configuration
    unfolding with_defaults validate
    new = do
      merged ← environment
      table ← with_defaults merged
      validate table
      lift (try_into table)
