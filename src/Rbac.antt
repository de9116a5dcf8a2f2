-- ===== src/Rbac.antt =====
-- server/src/rbac: role-based access control.
pub mod Model
pub mod Rule
pub mod Enforcer
pub mod Routes
pub mod Watcher
