-- ===== src/Lib.antt =====
-- enseada: the OAuth server, the access control and the document client of the registry.
--
-- The program is a server (server/), a client of the document database CouchDB (couchdb/), and a
-- library that both use (libenseada/). An OAuth handler answers authorization, token,
-- introspection and revocation requests over storages of clients, codes and tokens; an enforcer
-- loads rules and role assignments from the database and decides requests of users.
--
-- How the code is modelled:
--   Prelude     shared names, texts (split, join, sort), tables, sets, and `Exec`, the operations that
--               change the world and return, fail or panic
--   Platform    what comes from crates, the system and the configuration: a record of parameters
--   Guid, Pagination, Secure, Error
--               libenseada/src/guid.rs, pagination.rs, secure.rs, error.rs
--   Couch       couchdb/src/db.rs, error.rs, responses.rs and the requests of client.rs; in Setup what
--               makes databases and indexes (index.rs), in Changes the stream of changes.rs, in
--               Migrator migrator.rs
--   Oauth.Scope, Session, Client, Code, Token, AccessToken, RefreshToken, Request, Response, Error, Storage
--               the files of server/src/oauth/ of those names; the traits of storage.rs are records
--   Oauth.Handler
--               server/src/oauth/handler.rs: `validate_client`, `authenticate_client` and
--               `generate_token_set`, and in Authorize, Exchange, Introspect and Revoke the methods
--               `validate` and `handle` for each kind of request
--   Oauth.Persistence
--               server/src/oauth/persistence: the documents (Entities) and `CouchStorage`
--   Rbac.Model, Rbac.Rule, Rbac.Enforcer
--               server/src/rbac/model.rs and mod.rs
--   Oauth.Endpoints
--               server/src/oauth/routes/oauth.rs: login, token, introspection and revocation, and in
--               Form the login page and the answer to requests that do not parse
--   Oauth.Api   server/src/oauth/routes/api.rs: the endpoints of clients
--   Http        server/src/http/error.rs, mod.rs and extractor/session.rs, scope.rs, user.rs; in Guard
--               the two checks that the endpoints of routes.rs and api.rs begin with
--   Users       server/src/couchdb/repository.rs, server/src/user/entity.rs, service.rs, routes.rs
--   Rbac.Routes, Rbac.Watcher
--               server/src/rbac/routes.rs and watcher.rs
--   Server      server/src/config.rs, couchdb/migrate.rs and observability/routes.rs
--   Examples    a platform and storages that compute, with the theorems at concrete inputs
--
-- The world of a platform stands for the databases, the clock and the random source. A method that
-- awaits is one operation on the world: other requests do not run between its steps. A HashMap is an
-- association list, a HashSet a list that is read through membership. Log lines are left out. Every
-- loop of the code is over a list, except that of the watcher, whose runs are a relation that has the taken
-- events; the text of a number (Server.Config.Decimal) recurses on fuel above the number. An endpoint takes the
-- scope and the user that the extractors of Http find, and the enforcer that is held. The limit of
-- a listing is a usize of 64 bits where one is added to it, and wraps around as in a release build.
--
-- Not modelled: the text of pages, the answer to OAuth forms that do not parse, which is the HTTP
-- library's, logging, templates, static pages and the start of the HTTP
-- server. The theorems on the handler hold for any storages, or name what they ask of them;
-- Couch.Documents and Couch.Stored name what is asked of the database and of the code that serde
-- derives, which writes ids and scopes as texts, and Secure.Hashes what is asked of Argon2.
pub mod Prelude
pub mod Platform
pub mod Error
pub mod Guid
pub mod Secure
pub mod Couch
pub mod Pagination
pub mod Oauth
pub mod Rbac
pub mod Users
pub mod Http
pub mod Server
pub mod Examples
