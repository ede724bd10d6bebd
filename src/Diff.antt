-- ===== src/Diff.antt =====
-- The images that a new configuration no longer names, and the sequence of past configurations
-- (pkg/diff).
pub mod Sequence
pub mod Changes
pub mod Delete
