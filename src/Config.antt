-- ===== src/Config.antt =====
-- Reading and checking an image set configuration (pkg/config).
pub mod Load
pub mod Validate
