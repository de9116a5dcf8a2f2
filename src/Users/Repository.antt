-- ===== src/Users/Repository.antt =====
-- server/src/couchdb/repository.rs: the trait `Entity` as a record of operations, and the methods of
-- `Repository` over it.
pub mod Listing
use Prim.Native.String.{String, ◌++◌}
use enseada.Prelude.{ℕ, ◌+◌, ◌^◌, ◌%◌, Option, none, some}
use enseada.Prelude.Exec.{Exec, pure, ok_or, unwrap, ◌>>=◌, ◌>>◌}
use enseada.Platform.{Platform}
use enseada.Guid
use enseada.Guid.{Guid}
use enseada.Couch
use enseada.Couch.Responses.{PutResponse, RowsResponse}
use enseada.Couch.Database
use enseada.Couch.Database.{Codec, Database}
use enseada.Pagination.{Cursor, Page, from_rows_response}

pub record Entity (T : Type 0) : Type 0 where
  pub build_guid : String → Guid
  pub id : T → Guid
  pub rev : T → Option String
  pub set_rev : T → String → T

-- cursor.map(Cursor::to_string)
abbrev pub cursor_text : Option Cursor → Option String
cursor_text none = none
cursor_text (some cursor) = some cursor.text

-- `limit + 1` on a usize of 64 bits, as a release build computes it; a build that checks for overflow
-- panics at the greatest limit.
unfoldable pub one_more : ℕ → ℕ
one_more limit = (limit + 1) % 2 ^ 64

module _ (p : Platform) {T : Type 0} (entity : Entity T) where
  -- The code that serde derives for the documents.
  pub record Codecs : Type 0 where
    pub document : Codec p T
    pub rows : Codec p (RowsResponse T)
    pub stored : Codec p PutResponse
    pub done : Codec p (Unit {0})

  module _ (c : Codecs) (db : Database) where
    abbrev pub list_rows :
        Option String → ℕ → Option String → Exec p.World Couch.Error.Error (RowsResponse T)
    list_rows none limit start = Couch.Database.list p c.rows db limit start
    list_rows (some partition) limit start =
        Couch.Database.list_partitioned p c.rows db partition limit start

    -- One row more than the limit is asked for, so that the page can lead on.
    unfoldable pub list : ℕ → Option Cursor → Exec p.World Couch.Error.Error (Page T)
    list limit cursor = do
      res ← list_rows (entity.build_guid "").partition (one_more limit) (cursor_text cursor)
      pure (from_rows_response p res limit)

    unfoldable pub find : String → Exec p.World Couch.Error.Error (Option T)
    find id = Couch.Database.get p c.document db (Guid.to_string (entity.build_guid id))

    unfoldable pub get : String → Exec p.World Couch.Error.Error T
    unfolding find
    get id = do
      found ← find id
      ok_or (Couch.Error.not_found ("entity " ++ (id ++ " not found"))) found

    unfoldable pub save : T → Exec p.World Couch.Error.Error T
    save document = do
      res ←
          Couch.Database.put p c.document c.stored db (Guid.to_string (entity.id document)) document
      pure (entity.set_rev document res.rev)

    -- A document without a revision makes it panic.
    unfoldable pub delete : T → Exec p.World Couch.Error.Error (Unit {0})
    delete document = do
      rev ← unwrap (entity.rev document)
      Couch.Database.delete p c.done db (Guid.to_string (entity.id document)) rev
