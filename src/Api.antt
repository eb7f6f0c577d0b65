-- ===== src/Api.antt =====
-- internal/api: the address arithmetic of the HTTP handlers.
pub mod Cidr
