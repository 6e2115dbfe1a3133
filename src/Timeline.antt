-- ===== src/Timeline.antt =====
-- The append-only timeline (runtime-go/internal/timeline/store.go).
pub mod Lines
pub mod Tail
pub mod Store
