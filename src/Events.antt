-- ===== src/Events.antt =====
-- runtime-go/internal/events/normalizer.go: bridge messages become events.
pub mod Readers
pub mod Message
pub mod Facts
