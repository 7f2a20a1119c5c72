-- ===== src/Service.antt =====
-- pkg/application/service/service.go: the Helm values of an application, its dependencies, and
-- its ApplicationSet.
pub mod Placeholders
pub mod ImageTag
pub mod Ingress
pub mod Dependencies
pub mod ApplicationSet
pub mod Delete
pub mod Run
pub mod Termination
