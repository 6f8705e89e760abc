-- ===== src/Api.antt =====
-- api/v1alpha1: the custom resources, their specs and their statuses.
pub mod Meta
pub mod Server
pub mod Zones
pub mod Tiers
