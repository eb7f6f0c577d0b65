-- ===== src/Planning.antt =====
-- internal/planning: address arithmetic, gap analysis.
pub mod Ranges
pub mod Cidrs
pub mod Recommendations
pub mod Gaps
pub mod Resolve
pub mod Compliance
