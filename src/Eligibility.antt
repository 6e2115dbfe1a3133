-- ===== src/Eligibility.antt =====
-- The eligibility gate (runtime-go/internal/state/eligibility.go).
pub mod Glob
pub mod Gate
