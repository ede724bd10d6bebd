-- ===== src/Manifest.antt =====
-- The images of an operator catalog (pkg/manifest/oci-manifest.go).
pub mod Versions
pub mod Related
pub mod Catalog
pub mod Reader
