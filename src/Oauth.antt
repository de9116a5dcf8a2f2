-- ===== src/Oauth.antt =====
-- server/src/oauth: the OAuth 2.0 authorization server.
pub mod Error
pub mod Scope
pub mod Session
pub mod Client
pub mod Code
pub mod Token
pub mod AccessToken
pub mod RefreshToken
pub mod Request
pub mod Response
pub mod Storage
pub mod Handler
pub mod Persistence
pub mod Endpoints
pub mod Api
