-- ===== src/Lore.antt =====
-- runtime-go/internal/lore: the packs of lore that an NPC is told of.
pub mod Text
pub mod Pack
pub mod Context
pub mod Bounds
pub mod Quest
