-- ===== src/Controller/Boot/Laws.antt =====
-- What a controller that a command has created tells about the cluster.
use alustan.Base.{subst, ◌∷◌, ℕ, String, Bool, true, false, Result, ok, ◌≡◌, refl, errorf}
use alustan.Cluster.{
  Holds, returns, Cluster, Kind, apps, terraforms, lift, wrap, History, Yields, Yields-any,
  Yields-bind, Yields-wrap, Yields-self, Returned, get_namespace,
}
use alustan.ArgoReady.{required_deployments, is_argo_installed_and_ready}
use alustan.ArgoReady.Laws.{AllReady, is_argo_installed_and_ready-AllReady}
use alustan.Util.{get_sync_intervals}
use alustan.Controller.Lister.{KeyFunctions}
use alustan.Controller.Boot.{
  Constructors, Controller, new_controller, new_in_cluster_controller, boot,
  boot_terraform_controller, boot_app_controller, fatal_unless_ready,
}

-- At some point Argo CD was answered as installed, with all its deployments ready.
abbrev pub WasReady : Cluster → Type 0
WasReady c =
    (h : History) × (c.ack h (get_namespace "argocd") ≡ ok tt)
    × AllReady c required_deployments (get_namespace "argocd" ∷ h)

-- The interval of a command.
abbrev pub interval_of : Kind → ℕ × ℕ → ℕ
interval_of terraforms (infra, app) = infra
interval_of apps (infra, app) = app

module _ (c : Cluster) (N : Constructors) where
  -- The controller is a new one of this kind and interval, and Argo CD was ready.
  abbrev IsBooted : Kind → KeyFunctions → ℕ → Controller → Type 0
  IsBooted kind K interval controller = WasReady c × (controller ≡ new_controller kind K interval)

  fatal-ready :
      (r : Bool × Bool)
      → Returned (is_argo_installed_and_ready c) (ok r)
      → Yields (λ (_ : Unit {0}). WasReady c) (fatal_unless_ready c N r)
  fatal-ready (true, true) got h =
      let (n, d) = is_argo_installed_and_ready-AllReady c got.0 got.1 in (got.0, n, d)
  fatal-ready (true, false) got h = tt
  fatal-ready (false, true) got h = tt
  fatal-ready (false, false) got h = tt

  new_in_cluster_controller-IsBooted :
      (kind : Kind) (K : KeyFunctions) (interval : ℕ)
      → Yields (IsBooted kind K interval) (new_in_cluster_controller c N kind K interval)
  unfolding new_in_cluster_controller
  new_in_cluster_controller-IsBooted kind K interval =
      let Any = λ (_ : Unit {0}). Unit {0} in
      let Q = IsBooted kind K interval in
      let ready = is_argo_installed_and_ready c in
      Yields-bind Any Q _ _
        (Yields-any (wrap (errorf "Error creating in-cluster config: ") (lift N.in_cluster_config)))
        λ _ _.
          Yields-bind Any Q _ _
            (Yields-any (wrap (errorf "Error creating Kubernetes clientset: ") (lift N.clientset)))
            λ _ _.
              Yields-bind (λ r. Returned ready (ok r)) Q _ _
                (Yields-wrap (λ r. Returned ready (ok r))
                  (errorf "Error checking ArgoCD installation status: ") ready (Yields-self ready))
                λ r got.
                  Yields-bind (λ (_ : Unit {0}). WasReady c) Q _ _ (fatal-ready r got)
                    λ _ was_ready.
                      Yields-bind Any Q _ _
                        (Yields-any (
                          wrap (errorf "Error creating dynamic Kubernetes client: ")
                            (lift N.dynamic_client)))
                        λ _ _ _. (was_ready, refl)

  boot-IsBooted :
      (getenv : String → String) (parse_duration : String → Result ℕ) (kind : Kind)
      (K : KeyFunctions)
      → Yields
          (IsBooted kind K (interval_of kind (get_sync_intervals getenv parse_duration)))
          (boot c N getenv parse_duration kind K)
  unfolding boot_terraform_controller boot_app_controller
  boot-IsBooted getenv parse_duration terraforms K =
      new_in_cluster_controller-IsBooted terraforms K (get_sync_intervals getenv parse_duration).0
  boot-IsBooted getenv parse_duration apps K =
      new_in_cluster_controller-IsBooted apps K (get_sync_intervals getenv parse_duration).1

  pub boot-ok :
      (getenv : String → String) (parse_duration : String → Result ℕ) (kind : Kind)
      (K : KeyFunctions) (h : History) {controller : Controller}
      → (boot c N getenv parse_duration kind K h).0 ≡ returns (ok controller)
      → WasReady c
        × (controller
            ≡ new_controller kind K (interval_of kind (get_sync_intervals getenv parse_duration)))
  boot-ok getenv parse_duration kind K h p =
      subst (Holds (IsBooted kind K (interval_of kind (get_sync_intervals getenv parse_duration))))
        p (boot-IsBooted getenv parse_duration kind K h)
