-- ===== src/Release.antt =====
-- pkg/release: the Cincinnati client, its update graph and the upgrade paths.
pub mod Graph
pub mod Client
pub mod Search
pub mod Updates
pub mod Names
pub mod Channels
pub mod Upgrades
pub mod Find
pub mod Downloads
pub mod Signatures
