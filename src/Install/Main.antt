-- ===== src/Install/Main.antt =====
-- `main` from the creation of the clients on. A fatal error ends the process.
use alustan.Base.{String, errorf, new_error, ◌==◌, if◌then◌else◌}
use alustan.Cluster.{Cluster, M, call, pure, raise, wrap, ◌>>=◌, ◌>>◌, create_argo_client}
use alustan.Kube.ArgoCluster.{Backoff}
use alustan.Terraform.PostDeploy.{Json}
use alustan.ArgoLogin.{admin_password, generate_auth_token}
use alustan.Install.Helm.{HelmTools, install_if_needed}
use alustan.Install.SshKey.{SshTools, store_ssh_key_from_env}

unfoldable pub main :
    Cluster → HelmTools → Backoff → Json → SshTools → (String → String) → M (Unit {0})
unfolding install_if_needed admin_password generate_auth_token store_ssh_key_from_env
main c E B J S getenv = do
  (if getenv "ARGOCD_VERSION" == ""
      then raise {A = Unit {0}} (new_error "ARGOCD_VERSION environment variable is not set")
      else pure tt)
  wrap (errorf "Failed to install ArgoCD: ") (install_if_needed c E B (getenv "ARGOCD_CONFIG"))
  password ← wrap (errorf "Failed to get ArgoCD admin password: ") (admin_password c)
  token ← wrap (errorf "Failed to get ArgoCD token: ") (generate_auth_token c J "admin" password)
  wrap (errorf "Failed to create ArgoCD client: ") (call c.ack (create_argo_client token))
  wrap (errorf "Failed to store SSH key: ") (store_ssh_key_from_env S c getenv)
