-- ===== src/Collect.antt =====
-- The collectors of images to copy (pkg/operator, pkg/additional and pkg/release).
pub mod Files
pub mod Operators
pub mod Additional
pub mod Releases
pub mod Interfaces
pub mod Catalogs
