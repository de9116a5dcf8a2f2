-- ===== src/Couch/Documents.antt =====
-- What the database promises of documents that are not there, and what follows for the operations
-- of couchdb/src/db.rs.
use enseada.Prelude.{ℕ, String, Option, none, some, ◌≡◌, ◌≢◌, arith, inl, inr}
use enseada.Prelude.Exec.{Outcome, Outcome-cases, ok, err}
use enseada.Platform.{Platform, Method, Query}
use enseada.Couch.Error.{TransportError}
use enseada.Couch.Responses.{PutResponse}
use enseada.Couch.Database.{Codec, Database, path, fetch, get, put, delete}

module _ (p : Platform) where
  open p use {World, Json, request, utc_now, fill}

  -- A request for the document is answered with status 404.
  abbrev pub Missing : World → String → Type 0
  Missing w doc =
      (e : TransportError) × (e.status ≡ some 404)
      × ((request Method.get doc none none w).0 ≡ err e)

  -- What CouchDB promises: a document that was deleted is missing, and one that is missing stays so
  -- until a document is put under its path.
  pub record DocumentLaws : Type 0 where
    pub deleted :
        (doc rev : String) (json : Json) (w w' : World)
        → request Method.delete doc none (some (Query.rev rev)) w ≡ (ok json, w')
        → Missing w' doc
    pub after_get :
        (doc other : String) (w : World)
        → Missing w doc
        → Missing (request Method.get other none none w).1 doc
    pub after_put :
        (doc other : String) (body : Json) (w : World)
        → other ≢ doc
        → Missing w doc
        → Missing (request Method.put other (some body) none w).1 doc
    pub after_delete :
        (doc other rev : String) (w : World)
        → Missing w doc
        → Missing (request Method.delete other none (some (Query.rev rev)) w).1 doc
    pub after_clock : (doc : String) (w : World) → Missing w doc → Missing (utc_now w).1 doc
    pub after_fill : (doc : String) (n : ℕ) (w : World) → Missing w doc → Missing (fill n w).1 doc

  -- A missing document is no error, but nothing that is found.
  pub get-Missing :
      {R : Type 0} (c : Codec p R) (db : Database) (id : String) (w : World)
      → Missing w (path db id)
      → (get p c db id w).0 ≡ ok none
  unfolding get fetch
  get-Missing c db id w (e, status, answer) = ground (arith, status, answer)

  module _ (laws : DocumentLaws) (db : Database) where
    -- The answer of a request is read without another one.
    request_of_fetch :
        {R : Type 0} (c : Codec p R) (method : Method) (doc : String) (body : Option Json)
        (query : Option Query) (w : World)
        → (fetch p c method doc body query w).1 ≡ (request method doc body query w).1
    unfolding fetch
    request_of_fetch c method doc body query w = ground arith

    pub delete-Missing :
        (c : Codec p (Unit {0})) (id rev : String) (w w' : World)
        → delete p c db id rev w ≡ (ok tt, w')
        → Missing w' (path db id)
    unfolding delete fetch
    delete-Missing c id rev w w' e =
        let answer : Outcome TransportError Json × World =
          request Method.delete (path db id) none (some (Query.rev rev)) w in
        elim (Outcome-cases answer.0) [
          | inl (json, read) ↦ laws.deleted (path db id) rev json w w' (ground arith)
          | inr (inl (x, failed)) ↦ absurd (ground arith)
          | inr (inr panics) ↦ absurd (ground arith)
        ]

    pub get-keeps :
        {R : Type 0} (c : Codec p R) (id doc : String) (w : World)
        → Missing w doc
        → Missing (get p c db id w).1 doc
    unfolding get
    get-keeps c id doc w m =
        rw (request_of_fetch c Method.get (path db id) none none w)
          (laws.after_get doc (path db id) w m)

    pub put-keeps :
        {A : Type 0} (c : Codec p A) (answer : Codec p PutResponse) (id doc : String) (a : A)
        (w : World)
        → path db id ≢ doc
        → Missing w doc
        → Missing (put p c answer db id a w).1 doc
    unfolding put
    put-keeps c answer id doc a w other m =
        rw (request_of_fetch answer Method.put (path db id) (some (c.encode a)) none w)
          (laws.after_put doc (path db id) (c.encode a) w other m)

    pub delete-keeps :
        (c : Codec p (Unit {0})) (id rev doc : String) (w : World)
        → Missing w doc
        → Missing (delete p c db id rev w).1 doc
    unfolding delete
    delete-keeps c id rev doc w m =
        rw (request_of_fetch c Method.delete (path db id) none (some (Query.rev rev)) w)
          (laws.after_delete doc (path db id) rev w m)
