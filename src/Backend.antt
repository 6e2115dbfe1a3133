-- ===== src/Backend.antt =====
-- runtime-go/internal/backend: the backends that decide without a model.
pub mod Reply
pub mod Rule
