-- ===== src/Kube.antt =====
-- The controllers' use of the Kubernetes and Argo CD servers: finalizers, status, secrets,
-- ingress addresses and clusters.
pub mod Retry
pub mod Status
pub mod PatSecret
pub mod IngressUrls
pub mod ArgoCluster
pub mod Finalizer
pub mod Termination
