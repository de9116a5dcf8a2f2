-- ===== src/Couch.antt =====
-- couchdb/src: the client of the document database.
pub mod Error
pub mod Responses
pub mod Database
pub mod Documents
pub mod Stored
pub mod Setup
pub mod Changes
pub mod Migrator
