-- ===== src/Couch/Responses.antt =====
-- couchdb/src/responses.rs
use enseada.Prelude.{ℕ, String, Bool, Option, List}

pub record PutResponse : Type 0 where
  pub ok : Bool
  pub id : String
  pub rev : String

pub record FindResponse (T : Type 0) : Type 0 where
  pub docs : List T
  pub bookmark : String
  pub warning : Option String

pub record RawDocResponse (T : Type 0) : Type 0 where
  pub id : String
  pub key : String
  -- value.rev
  pub rev : String
  pub doc : T

pub record RowsResponse (T : Type 0) : Type 0 where
  pub offset : ℕ
  pub rows : List (RawDocResponse T)
  pub total_rows : ℕ
