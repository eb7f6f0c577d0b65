-- ===== src/Auth.antt =====
-- internal/auth: permissions, roles and API key scopes.
pub mod Text
pub mod Catalog
pub mod Identity
pub mod Rbac
pub mod RoleStore
pub mod Users
pub mod Keys
pub mod Sessions
pub mod Roles
