-- ===== src/ArgoReady.antt =====
-- pkg/checkargo/checkArgoInstall.go: whether Argo CD is installed and ready. The answer is the pair
-- of both, in this order.
pub mod Laws
use alustan.Base.{
  ℕ, String, Bool, true, false, List, [], ◌∷◌, Result, ok, err, Error, is_not_found, leb, ◌&&◌,
  if◌then◌else◌,
}
use alustan.Cluster.{
  Cluster, Deployment, M, call, pure, raise, try, ◌>>=◌, get_namespace, get_deployment,
}

abbrev pub required_deployments : List String
required_deployments =
    "argo-cd-argocd-applicationset-controller" ∷ "argo-cd-argocd-notifications-controller"
    ∷ "argo-cd-argocd-server" ∷ "argo-cd-argocd-repo-server" ∷ "argo-cd-argocd-redis"
    ∷ "argo-cd-argocd-dex-server" ∷ []

-- What is missing is not installed, any other error is passed on.
abbrev absent_or_raise : Error → M (Bool × Bool)
absent_or_raise e = if is_not_found e then pure (false, false) else raise e

abbrev all_replicas_ready : Deployment → Bool
all_replicas_ready d = leb d.ready_replicas d.replicas && leb d.replicas d.ready_replicas

module _ (c : Cluster) where
  abbrev after_deployment : Result Deployment → M (Bool × Bool) → M (Bool × Bool)
  after_deployment (err e) rest = absent_or_raise e
  after_deployment (ok d) rest = if all_replicas_ready d then rest else pure (true, false)

  -- The loop over the components.
  unfoldable pub check_deployments : List String → M (Bool × Bool)
  check_deployments [] = pure (true, true)
  check_deployments (deployment ∷ deployments) = do
    r ← try (call c.deployment (get_deployment "argocd" deployment))
    after_deployment r (check_deployments deployments)

  abbrev after_namespace : Result (Unit {0}) → M (Bool × Bool)
  after_namespace (err e) = absent_or_raise e
  after_namespace (ok _) = check_deployments required_deployments

  -- `IsArgoCDInstalledAndReady`
  unfoldable pub is_argo_installed_and_ready : M (Bool × Bool)
  unfolding check_deployments
  is_argo_installed_and_ready = do r ← try (call c.ack (get_namespace "argocd")); after_namespace r
