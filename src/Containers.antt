-- ===== src/Containers.antt =====
-- pkg/containers: the pods that run the scripts, and what they need.
pub mod Script
pub mod ServiceAccount
pub mod RunPod
pub mod Wait
pub mod DockerSecret
pub mod Claim
pub mod Termination
