-- ===== src/ArgoReady/Laws.antt =====
-- What the readiness of Argo CD means.
use alustan.Base.{String, true, List, [], ◌∷◌, ok, inl, inr, ◌≡◌, Result-cases, arith}
use alustan.Cluster.{Cluster, Deployment, History, returns, get_namespace, get_deployment}
use alustan.ArgoReady.{required_deployments, check_deployments, is_argo_installed_and_ready}

module _ (c : Cluster) where
  -- From this history on, each deployment is answered with all its replicas ready.
  abbrev pub AllReady : List String → History → Type 0
  AllReady [] h = Unit {0}
  AllReady (name ∷ names) h =
      ((d : Deployment) × (c.deployment h (get_deployment "argocd" name) ≡ ok d)
        × (d.ready_replicas ≡ d.replicas))
      × AllReady names (get_deployment "argocd" name ∷ h)

  check_deployments-AllReady :
      (names : List String) (h : History)
      → (check_deployments c names h).0 ≡ returns (ok (true, true))
      → AllReady names h
  unfolding check_deployments
  check_deployments-AllReady [] h p = tt
  check_deployments-AllReady (name ∷ names) h p =
      elim (Result-cases (c.deployment h (get_deployment "argocd" name))) [
        | inr (e, r) ↦ absurd (ground arith)
        | inl (d, r) ↦ (
          (d, r, ground arith),
          ground (arith, check_deployments-AllReady names (get_deployment "argocd" name ∷ h)),
        )
      ]

  -- Argo CD is reported as installed and ready only when its namespace was answered and every one
  -- of its six components was answered with as many ready replicas as it asks for.
  pub is_argo_installed_and_ready-AllReady :
      (h : History)
      → (is_argo_installed_and_ready c h).0 ≡ returns (ok (true, true))
      → (c.ack h (get_namespace "argocd") ≡ ok tt)
        × AllReady required_deployments (get_namespace "argocd" ∷ h)
  unfolding is_argo_installed_and_ready
  is_argo_installed_and_ready-AllReady h p =
      elim (Result-cases (c.ack h (get_namespace "argocd"))) [
        | inr (e, r) ↦ absurd (ground arith)
        | inl (u, r) ↦ (
          r,
          check_deployments-AllReady required_deployments (get_namespace "argocd" ∷ h) (rw r at p),
        )
      ]
