-- ===== src/Dotenv.antt =====
-- runtime-go/internal/dotenv/dotenv.go: `.env` files, on lists of runes.
pub mod Text
pub mod Parser
pub mod Load
pub mod Upsert
pub mod Lines
pub mod Entry
pub mod Entries
pub mod Rewrite
pub mod RoundTrip
pub mod Applied
