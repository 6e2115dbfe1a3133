-- ===== src/Domain.antt =====
-- The data shared by the runtime's packages (runtime-go/internal/domain).
pub mod Value
pub mod Ped
pub mod Event
