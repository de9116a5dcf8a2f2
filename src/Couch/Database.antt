-- ===== src/Couch/Database.antt =====
-- couchdb/src/db.rs and the requests of couchdb/src/client.rs that it makes. A codec stands for the
-- code that serde derives for a type.
use Prim.Native.String.{String, ◌++◌}
use enseada.Prelude.{ℕ, Bool, true, false, Option, none, some, nat_eq, if◌then◌else◌}
use enseada.Prelude.Exec.{Outcome, ok, err, panic, Exec, lift, map_err, ◌>>=◌}
use enseada.Platform.{Platform, Method, Query}
use enseada.Couch.Error
use enseada.Couch.Error.{Error, TransportError}
use enseada.Couch.Responses.{PutResponse, FindResponse, RowsResponse}

pub record Codec (p : Platform) (A : Type 0) : Type 0 where
  pub encode : A → p.Json
  pub decode : p.Json → Outcome TransportError A

pub record Database : Type 0 where
  pub name : String
  pub partitioned : Bool

-- format!("{}/{}", &self.name, id)
abbrev pub path : Database → String → String
path db id = db.name ++ "/" ++ id

-- err.status() == Some(status)
abbrev pub has_status : ℕ → TransportError → Bool
has_status status e = elim e.status [ none ↦ false | some s ↦ nat_eq s status ]

-- An answer with status 404 is no error of `get`.
abbrev pub found : {R : Type 0} → Outcome TransportError R → Outcome Error (Option R)
found (ok r) = ok (some r)
found (err e) = if has_status 404 e then ok none else err (Error.from e)
found panic = panic

module _ (p : Platform) where
  open p use {World, Json, request, head, find_body}

  -- Client::request, with the body read as an `R`
  unfoldable pub fetch :
      {R : Type 0}
      → Codec p R
      → Method
      → String
      → Option Json
      → Option Query
      → Exec World TransportError R
  fetch c method path body query = do json ← request method path body query; lift (c.decode json)

  -- GET of a document
  unfoldable pub get : {R : Type 0} → Codec p R → Database → String → Exec World Error (Option R)
  unfolding fetch
  get c db id w = let (r, w') = fetch c Method.get (path db id) none none w in (found r, w')

  unfoldable pub list_partitioned :
      {R : Type 0}
      → Codec p (RowsResponse R)
      → Database
      → String
      → ℕ
      → Option String
      → Exec World Error (RowsResponse R)
  unfolding fetch
  list_partitioned c db partition limit start_key = map_err Error.from (
      fetch c Method.get (path db ("_partition/" ++ partition ++ "/_all_docs")) none
        (some (Query.list_query limit start_key)))

  unfoldable pub list :
      {R : Type 0}
      → Codec p (RowsResponse R)
      → Database
      → ℕ
      → Option String
      → Exec World Error (RowsResponse R)
  unfolding fetch
  list c db limit start_key =
      map_err Error.from
        (fetch c Method.get (path db "_all_docs") none (some (Query.list_query limit start_key)))

  unfoldable pub list_all_partitioned :
      {R : Type 0}
      → Codec p (RowsResponse R)
      → Database
      → String
      → Exec World Error (RowsResponse R)
  unfolding fetch
  list_all_partitioned c db partition = map_err Error.from (
      fetch c Method.get (path db ("_partition/" ++ partition ++ "/_all_docs")) none
        (some Query.include_docs))

  -- A conflict is named by the document.
  abbrev put_error : Database → String → TransportError → Error
  put_error db id e =
      if has_status 409 e
      then Error.map_message e ("document " ++ id ++ " already exists in database " ++ db.name)
      else Error.from e

  -- PUT of a document
  unfoldable pub put :
      {A : Type 0}
      → Codec p A
      → Codec p PutResponse
      → Database
      → String
      → A
      → Exec World Error PutResponse
  unfolding fetch
  put c answer db id entity =
      map_err (put_error db id) (fetch answer Method.put (path db id) (some (c.encode entity)) none)

  unfoldable pub find :
      {R : Type 0}
      → Codec p (FindResponse R)
      → Database
      → Json
      → ℕ
      → Option String
      → Exec World Error (FindResponse R)
  unfolding fetch
  find c db selector limit bookmark =
      map_err Error.from
        (fetch c Method.post (path db "_find") (some (find_body selector limit bookmark)) none)

  unfoldable pub find_partitioned :
      {R : Type 0}
      → Codec p (FindResponse R)
      → Database
      → String
      → Json
      → ℕ
      → Option String
      → Exec World Error (FindResponse R)
  unfolding fetch
  find_partitioned c db partition selector limit bookmark = map_err Error.from (
      fetch c Method.post (path db ("_partition/" ++ partition ++ "/_find"))
        (some (find_body selector limit bookmark)) none)

  -- DELETE of a revision; `answer` reads `responses::Ok`.
  unfoldable pub delete :
      Codec p (Unit {0}) → Database → String → String → Exec World Error (Unit {0})
  unfolding fetch
  delete answer db id rev =
      map_err Error.from (fetch answer Method.delete (path db id) none (some (Query.rev rev)))

  -- Client::exists
  abbrev existing : Outcome TransportError (Unit {0}) → Outcome Error Bool
  existing (ok _) = ok true
  existing (err e) = if has_status 404 e then ok false else err (Error.from e)
  existing panic = panic

  unfoldable pub exists : Database → String → Exec World Error Bool
  exists db id w = let (r, w') = head (path db id) w in (existing r, w')
