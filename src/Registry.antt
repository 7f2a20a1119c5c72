-- ===== src/Registry.antt =====
-- pkg/infrastructure/registry and pkg/application/registry: which image tag is to run.
pub mod LatestTag
pub mod TaggedImage
pub mod Clients
pub mod Termination
