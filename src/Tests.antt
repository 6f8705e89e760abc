-- ===== src/Tests.antt =====
-- Runs of the model, and its theorems at concrete data: the repository has no part of this name.
pub mod Sample
pub mod Pdns
pub mod Records
pub mod Keyring
pub mod Watches
pub mod Zones
pub mod Manifests
pub mod Services
pub mod Tiers
pub mod Objects
pub mod Rendered
pub mod Cluster
pub mod Servers
pub mod TierPasses
