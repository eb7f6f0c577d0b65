-- ===== src/Tests.antt =====
-- The theorems of the other modules at concrete inputs.
mod Addresses
mod Store
mod Access
mod Search
mod Directory
mod Cloud
mod Advice
mod Gaps
