-- ===== src/Ownership.antt =====
-- The ownership machine (runtime-go/internal/state/ownership.go).
pub mod Types
pub mod Record
pub mod Manager
pub mod Edges
pub mod History
pub mod Safety
