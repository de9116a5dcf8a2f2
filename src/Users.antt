-- ===== src/Users.antt =====
-- server/src/couchdb/repository.rs and server/src/user: documents of one kind in a database, and the
-- users among them.
pub mod Repository
pub mod Service
pub mod Routes
