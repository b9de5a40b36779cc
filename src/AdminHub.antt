-- ===== src/AdminHub.antt =====
-- apps/admin_hub: the pipeline of a registration.
pub mod Pipeline
mod Tests
