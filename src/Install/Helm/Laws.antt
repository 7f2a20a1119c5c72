-- ===== src/Install/Helm/Laws.antt =====
-- Which operations of Helm the installer starts.
use alustan.Base.{
  if◌then◌else◌, ◌&&◌, wrapf, ℕ, suc, String, Bool, true, false, not, List, [], ◌∷◌, Result, ok,
  err, Error, ◌≡◌, refl, ◌≢◌, ◌≤◌, ◌+◌, ◌⊎◌, inl, inr, Result-cases, Bool-cases, is_not_found,
  arith,
}
use alustan.Value.{Fields}
use alustan.Cluster.{
  pure, ◌>>=◌, wrap, get_deployment, Leads-bind, helm_index, Cluster, M, History, Outcome, returns,
  helm_upgrade, helm_install, helm_history, helm_status, get_namespace, Keeps,
}
use alustan.Kube.ArgoCluster.{Polls, finished, failed, exhausted, again, stuck, crashes, Backoff}
use alustan.Install.Helm.{
  prepare, add_repository, operate_unless_pending, HelmTools, release, operate_once,
  install_with_helm, install_if_needed,
}
use alustan.ArgoReady.{check_deployments, required_deployments, is_argo_installed_and_ready}

-- How many upgrades and installations a history holds.
abbrev pub helm_operations : History → ℕ
helm_operations [] = 0
helm_operations (helm_upgrade _ _ ∷ h) = suc (helm_operations h)
helm_operations (helm_install _ _ _ ∷ h) = suc (helm_operations h)
helm_operations (_ ∷ h) = helm_operations h

module _ (c : Cluster) (vals : Fields) where
  -- The namespace is there, or not.
  abbrev pub NamespaceExists : History → Bool → Type 0
  NamespaceExists h true = c.ack h (get_namespace "argocd") ≡ ok tt
  NamespaceExists h false =
      (e : Error) × (c.ack h (get_namespace "argocd") ≡ err e) × (is_not_found e ≡ true)

  -- When the condition of the back-off succeeds, a release with a history was upgraded, and one
  -- without was installed, with its namespace created exactly if it was missing; nothing else was
  -- sent.
  pub operate_once-ok :
      (h : History)
      → (operate_once c vals h).0 ≡ returns (ok true)
      → let h' = (operate_once c vals h).1 in
        let asked = helm_history release ∷ h in
        ((c.ack h (helm_history release) ≡ ok tt) × (h' ≡ helm_upgrade release vals ∷ asked))
        ⊎ ((e : Error) × (exists : Bool) × (c.ack h (helm_history release) ≡ err e)
            × NamespaceExists asked exists
            × (h' ≡ helm_install release (not exists) vals ∷ get_namespace "argocd" ∷ asked))
  unfolding operate_once
  operate_once-ok h p = elim (Result-cases (c.ack h (helm_history release))) [
    | inl (_, r) ↦ inl (r, ground arith)
    | inr (e, r) ↦ elim (Result-cases (c.ack (helm_history release ∷ h) (get_namespace "argocd"))) [
      | inl (_, s) ↦ inr (e, true, r, s, ground arith)
      | inr (x, s) ↦ elim (Bool-cases (is_not_found x)) [
        | inl absent ↦ inr (e, false, r, (x, s, absent), ground arith)
        | inr other ↦ absurd (ground arith)
      ]
    ]
  ]

  operate_once-bounded :
      (h : History) → helm_operations (operate_once c vals h).1 ≤ helm_operations h + 1
  unfolding operate_once
  operate_once-bounded h = ground arith

  -- The condition never asks for another run.
  operate_once-ne-false : (h : History) → (operate_once c vals h).0 ≢ returns (ok false)
  unfolding operate_once
  operate_once-ne-false h p = ground arith

-- A condition that never asks for another run is run once, and its answer is passed on.
Polls-once :
    {m : M Bool}
    → ((h : History) → (m h).0 ≢ returns (ok false))
    → (h : History) (r : Outcome (Unit {0}) × History) → Polls m h r
    → r ≡ (m >>= λ _. pure tt) h
Polls-once never h r (finished _ e) = rw e refl
Polls-once never h r (failed _ x e) = rw e refl
Polls-once never h r (exhausted _ x e) = absurd (never h e)
Polls-once never h r (again _ e next) = absurd (never h e)
Polls-once never h r (stuck _ e) = rw e refl
Polls-once never h r (crashes _ e) = rw e refl

-- The back-off around the operation never runs it twice: whatever its steps, it does what one run
-- does and passes on its answer, also an error that another run might not have met.
pub backoff-operate_once :
    (c : Cluster) (B : Backoff) (vals : Fields) (h : History)
    → B.exponential_backoff (operate_once c vals) h ≡ (operate_once c vals >>= λ _. pure tt) h
backoff-operate_once c B vals h =
    Polls-once (operate_once-ne-false c vals) h (B.exponential_backoff (operate_once c vals) h)
      (B.runs (operate_once c vals) h)

once-history : (m : M Bool) (h : History) → ((m >>= λ _. pure tt) h).1 ≡ (m h).1
once-history m h = ground arith

module _ (c : Cluster) (E : HelmTools) (B : Backoff) (n : ℕ) where
  -- At most `n` operations.
  abbrev AtMost : ℕ → History → Type 0
  AtMost k h = helm_operations h ≤ k

  add_repository-AtMost : Keeps (AtMost n) (add_repository c E)
  unfolding add_repository
  add_repository-AtMost h p = ground arith

  check_deployments-AtMost : (names : List String) → Keeps (AtMost n) (check_deployments c names)
  unfolding check_deployments
  check_deployments-AtMost [] h p = p
  check_deployments-AtMost (name ∷ names) h p =
      ground (arith, check_deployments-AtMost names (get_deployment "argocd" name ∷ h))

  is_argo_installed_and_ready-AtMost : Keeps (AtMost n) (is_argo_installed_and_ready c)
  unfolding is_argo_installed_and_ready
  is_argo_installed_and_ready-AtMost h p =
      ground (arith, check_deployments-AtMost required_deployments (get_namespace "argocd" ∷ h))

  weaker : (h : History) → AtMost n h → AtMost (n + 1) h
  weaker h p = omega arith

  operate-AtMost :
      (vals : Fields) (h : History)
      → AtMost n h
      → AtMost (n + 1) (B.exponential_backoff (operate_once c vals) h).1
  operate-AtMost vals h p =
      rw (backoff-operate_once c B vals h, once-history (operate_once c vals) h)
        (omega (arith, operate_once-bounded c vals h))

  operate_unless_pending-AtMost :
      (vals : Fields) (r : Result Bool) (h : History)
      → AtMost n h
      → AtMost (n + 1) (operate_unless_pending c B vals r h).1
  operate_unless_pending-AtMost vals (ok true) h p = weaker h p
  operate_unless_pending-AtMost vals (ok false) h p = operate-AtMost vals h p
  operate_unless_pending-AtMost vals (err e) h p = operate-AtMost vals h p

  prepare-AtMost : (argocd_config : String) → Keeps (AtMost n) (prepare c E argocd_config)
  unfolding prepare
  prepare-AtMost argocd_config h p = ground (arith, add_repository-AtMost (helm_index ∷ h))

  install_with_helm-AtMost :
      (argocd_config : String) (h : History)
      → AtMost n h
      → AtMost (n + 1) (install_with_helm c E B argocd_config h).1
  unfolding install_with_helm
  install_with_helm-AtMost argocd_config =
      Leads-bind (AtMost n) (AtMost (n + 1)) weaker (prepare c E argocd_config) _
        (prepare-AtMost argocd_config)
        λ vals h p.
          operate_unless_pending-AtMost vals (c.flag h (helm_status release))
            (helm_status release ∷ h) p

  unless-AtMost :
      (b : Bool) (m : M (Unit {0}))
      → ((h : History) → AtMost n h → AtMost (n + 1) (m h).1)
      → (h : History) → AtMost n h
      → AtMost (n + 1) ((if b then pure tt else m) h).1
  unless-AtMost true m k h p = weaker h p
  unless-AtMost false m k h p = k h p

  install_if_needed-AtMost :
      (argocd_config : String) (h : History)
      → AtMost n h
      → AtMost (n + 1) (install_if_needed c E B argocd_config h).1
  unfolding install_if_needed
  install_if_needed-AtMost argocd_config =
      let is_ready = is_argo_installed_and_ready c in
      let P = AtMost n in
      let Q = AtMost (n + 1) in
      Leads-bind P Q weaker
        (wrap (wrapf "failed to check if ArgoCD is installed and ready: ") is_ready) _
        is_argo_installed_and_ready-AtMost
        λ answer. unless-AtMost (answer.0 && answer.1) _ (
          Leads-bind P Q weaker
            (wrap (wrapf "failed to check if ArgoCD is installed and ready after acquiring lock: ")
              is_ready)
            _ is_argo_installed_and_ready-AtMost
            λ second.
              unless-AtMost (second.0 && second.1) _ (install_with_helm-AtMost argocd_config))

-- However often it is polled and whatever is answered, InstallArgoCD starts at most one
-- installation or upgrade of the release.
pub install_if_needed-bounded :
    (c : Cluster) (E : HelmTools) (B : Backoff) (argocd_config : String) (h : History)
    → helm_operations (install_if_needed c E B argocd_config h).1 ≤ helm_operations h + 1
install_if_needed-bounded c E B argocd_config h =
    install_if_needed-AtMost c E B (helm_operations h) argocd_config h (omega arith)
