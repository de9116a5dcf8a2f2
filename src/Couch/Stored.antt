-- ===== src/Couch/Stored.antt =====
-- What the database promises of a document that was put, and what a look-up makes of it.
use enseada.Prelude.{ℕ, String, none, some, true, ◌≡◌, ◌≢◌, inl, inr, arith}
use enseada.Prelude.Exec.{Outcome, Outcome-cases, ok}
use enseada.Platform.{Platform, Method}
use enseada.Couch.Error.{TransportError}
use enseada.Couch.Responses.{PutResponse}
use enseada.Couch.Database.{Codec, Database, path, fetch, get, put, exists}

-- `reread` is what the code of serde reads back of a value that it wrote: ids and scopes are written as
-- texts, and different ones can have the same text.
module _ (p : Platform) {A : Type 0} (c : Codec p A) (set_rev : A → String → A) where
  open p use {World, Json, request, head, fill}

  -- The document is there, with the value and some revision.
  abbrev pub Holds : World → String → A → Type 0
  Holds w doc a =
      (rev : String) × (json : Json) × ((request Method.get doc none none w).0 ≡ ok json)
      × (c.decode json ≡ ok (set_rev a rev))

  -- What CouchDB and the code of serde promise: a document that was put is there, with a revision
  -- and with what is read back of its value, and stays there when another one is put.
  pub record StoringLaws (reread : A → A) : Type 0 where
    pub stored :
        (doc : String) (a : A) (json : Json) (w w' : World)
        → request Method.put doc (some (c.encode a)) none w ≡ (ok json, w')
        → Holds w' doc (reread a)
    pub after_put :
        (doc other : String) (body : Json) (a : A) (w : World)
        → other ≢ doc
        → Holds w doc a
        → Holds (request Method.put other (some body) none w).1 doc a

  -- A document that is there answers a HEAD request, and is there after such requests and whenever
  -- the random source is read.
  pub record PresenceLaws : Type 0 where
    pub present : (doc : String) (a : A) (w : World) → Holds w doc a → (head doc w).0 ≡ ok tt
    pub after_head :
        (doc other : String) (a : A) (w : World) → Holds w doc a → Holds (head other w).1 doc a
    pub after_fill :
        (doc : String) (n : ℕ) (a : A) (w : World) → Holds w doc a → Holds (fill n w).1 doc a

  pub get-Holds :
      (db : Database) (id : String) (a : A) (w : World)
      → Holds w (path db id) a
      → (rev : String) × ((get p c db id w).0 ≡ ok (some (set_rev a rev)))
  unfolding get fetch
  get-Holds db id a w (rev, json, read, decoded) = (rev, ground (arith, read, decoded))

  module _ (reread : A → A) (laws : StoringLaws reread) (db : Database) where
    pub put-Holds :
        (answer : Codec p PutResponse) (id : String) (a : A) (res : PutResponse) (w w' : World)
        → put p c answer db id a w ≡ (ok res, w')
        → Holds w' (path db id) (reread a)
    unfolding put fetch
    put-Holds answer id a res w w' h =
        let sent : Outcome TransportError Json × World =
          request Method.put (path db id) (some (c.encode a)) none w in
        elim (Outcome-cases sent.0) [
          | inl (json, read) ↦ laws.stored (path db id) a json w w' (ground arith)
          | inr (inl (x, failed)) ↦ absurd (ground arith)
          | inr (inr panics) ↦ absurd (ground arith)
        ]

    request_of_put :
        {B : Type 0} (other : Codec p B) (answer : Codec p PutResponse) (elsewhere : Database)
        (id : String) (b : B) (w : World)
        → (put p other answer elsewhere id b w).1
          ≡ (request Method.put (path elsewhere id) (some (other.encode b)) none w).1
    unfolding put fetch
    request_of_put other answer elsewhere id b w = ground arith

    pub put_other-Holds :
        {B : Type 0} (other : Codec p B) (answer : Codec p PutResponse) (elsewhere : Database)
        (id doc : String) (b : B) (a : A) (w : World)
        → path elsewhere id ≢ doc
        → Holds w doc a
        → Holds (put p other answer elsewhere id b w).1 doc a
    put_other-Holds other answer elsewhere id doc b a w apart there =
        rw (request_of_put other answer elsewhere id b w)
          (laws.after_put doc (path elsewhere id) (other.encode b) a w apart there)

  -- A document that is there exists, and goes on to be there.
  pub exists-Holds :
      (db : Database) (id : String) (a : A) (w : World)
      → PresenceLaws
      → Holds w (path db id) a
      → ((exists p db id w).0 ≡ ok true) × Holds (exists p db id w).1 (path db id) a
  unfolding exists
  exists-Holds db id a w laws there = (
    ground (arith, laws.present (path db id) a w there),
    laws.after_head (path db id) (path db id) a w there,
  )
