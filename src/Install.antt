-- ===== src/Install.antt =====
-- cmd/install-argocd/main.go: the installation of Argo CD.
pub mod Helm
pub mod SshKey
pub mod Main
