-- ===== src/Couch/Setup.antt =====
-- The operations of couchdb/src/db.rs that set a database up, with couchdb/src/index.rs and their
-- answers of couchdb/src/responses.rs.
use Prim.Native.String.{String, ◌++◌}
use enseada.Prelude.{Bool, true, false, Option, none, some}
use enseada.Prelude.Exec.{Exec, pure, map_err, ◌>>=◌}
use enseada.Platform.{Platform, ℤ, Method, Query}
use enseada.Couch.Error
use enseada.Couch.Error.{Error}
use enseada.Couch.Database.{Codec, Database, fetch}

pub record DbSizes : Type 0 where
  pub active : ℤ
  pub external : ℤ
  pub file : ℤ

pub record DbClusterInfo : Type 0 where
  pub n : ℤ
  pub q : ℤ
  pub r : ℤ
  pub w : ℤ

pub record DbProps : Type 0 where
  pub partitioned : Option Bool

pub record DbInfo : Type 0 where
  pub cluster : DbClusterInfo
  pub compact_running : Bool
  pub db_name : String
  pub disk_format_version : ℤ
  pub doc_count : ℤ
  pub doc_del_count : ℤ
  pub instance_start_time : String
  pub purge_seq : String
  pub sizes : DbSizes
  pub update_seq : String
  pub props : DbProps

-- responses::Ok
pub record Done : Type 0 where
  pub ok : Bool

pub data JsonIndexResultStatus : Type 0 where
  created exists : JsonIndexResultStatus

pub record JsonIndexResponse : Type 0 where
  pub result : JsonIndexResultStatus
  pub id : String
  pub name : String

module _ (p : Platform) where
  open p use {World, Json}

  pub record JsonIndex : Type 0 where
    pub index : Json
    pub name : String
    pub ddoc : Option String
    pub typ : String

  -- JsonIndex::new
  unfoldable pub new_index : String → Option String → Json → JsonIndex
  new_index name ddoc index = record { index = index; name = name; ddoc = ddoc; typ = "json" }

  -- The code that serde derives for the answers and the index.
  pub record SetupCodecs : Type 0 where
    pub info : Codec p DbInfo
    pub done : Codec p Done
    pub index : Codec p JsonIndex
    pub indexed : Codec p JsonIndexResponse

  abbrev was_created : JsonIndexResultStatus → Bool
  was_created created = true
  was_created exists = false

  module _ (c : SetupCodecs) where
    unfoldable pub get_self : Database → Exec World Error DbInfo
    unfolding fetch
    get_self db = map_err Error.from (fetch p c.info Method.get db.name none none)

    unfoldable pub create_self : Database → Exec World Error Bool
    unfolding fetch
    create_self db = do
      res ←
          map_err Error.from
            (fetch p c.done Method.put db.name none (some (Query.partitioned db.partitioned)))
      pure res.ok

    unfoldable pub create_index : Database → JsonIndex → Exec World Error Bool
    unfolding fetch
    create_index db index = do
      res ←
          map_err Error.from (
            fetch p c.indexed Method.post (db.name ++ "/_index") (some (c.index.encode index)) none)
      pure (was_created res.result)
