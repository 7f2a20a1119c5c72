-- ===== src/Tests.antt =====
-- Tests of the models and examples of the theorems, on one small cluster.
mod Libraries
mod Fixtures
mod Kube
mod Containers
mod Registry
mod Terraform
mod Service
mod Controller
mod ArgoReady
mod Pool
mod Session
mod Process
mod Converged
mod Copies
mod Images
mod Apply
mod Rollout
mod Provision
mod Install
