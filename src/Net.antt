-- ===== src/Net.antt =====
-- Addresses and prefixes (net/netip), and the arithmetic of internal/cidr.
pub mod Ip
pub mod Cidr
