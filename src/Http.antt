-- ===== src/Http.antt =====
-- server/src/http: the errors of the API, and what a request is authorized by.
pub mod Errors
pub mod Guard
pub mod Query
pub mod Session
pub mod User
