-- ===== src/Controller/Boot.antt =====
-- `NewController`, `NewInClusterController` and `initInformer` of both controllers, and the commands
-- cmd/terraform-controller and cmd/app-controller up to the start of their goroutines. The
-- constructors of client-go are parameters; `lastSyncTime` is never read.
pub mod Laws
use alustan.Base.{ℕ, String, Bool, true, false, Option, Result, errorf, new_error, if◌then◌else◌}
use alustan.Cluster.{Cluster, Kind, apps, terraforms, M, lift, pure, raise, wrap, ◌>>=◌, ◌>>◌}
use alustan.Util.{get_sync_intervals}
use alustan.ArgoReady.{is_argo_installed_and_ready}
use alustan.Controller.Lister.{KeyFunctions, Event, handle_event}
use alustan.Controller.Session.{Session, new_session}
use alustan.Controller.Pool.Steps.{Crew, new_crew}

-- What the informer watches, and the key that an event adds to the queue.
pub record Informer : Type 0 where
  pub group : String
  pub version : String
  pub resource : String
  pub on_event : Event → Option String

-- What differs between the controllers.
abbrev pub plural : Kind → String
plural terraforms = "terraforms"
plural apps = "apps"

-- The queue length for one more worker.
abbrev pub per_worker : Kind → ℕ
per_worker terraforms = 20
per_worker apps = 50

unfoldable pub init_informer : Kind → KeyFunctions → Informer
init_informer kind K = record {
  group = "alustan.io";
  version = "v1alpha1";
  resource = plural kind;
  on_event = handle_event K;
}

pub record Controller : Type 0 where
  pub kind : Kind
  pub sync_interval : ℕ
  pub queue_name : String
  pub informer : Informer
  pub session : Session
  pub crew : Crew

unfoldable pub new_controller : Kind → KeyFunctions → ℕ → Controller
unfolding init_informer
new_controller kind K sync_interval = record {
  kind = kind;
  sync_interval = sync_interval;
  queue_name = plural kind;
  informer = init_informer kind K;
  session = new_session;
  crew = new_crew;
}

-- `rest.InClusterConfig`, `kubernetes.NewForConfig` and `dynamic.NewForConfig`
pub record Constructors : Type 0 where
  pub in_cluster_config : Result (Unit {0})
  pub clientset : Result (Unit {0})
  pub dynamic_client : Result (Unit {0})

module _ (c : Cluster) (N : Constructors) where
  -- The end of the process unless Argo CD is there.
  abbrev fatal_unless_ready : Bool × Bool → M (Unit {0})
  fatal_unless_ready (installed, ready) =
      if installed
      then (if ready
          then pure tt
          else raise (new_error "ArgoCD components are installed but not ready"))
      else raise (new_error "ArgoCD is not installed in the cluster")

  -- `NewInClusterController`; an error ends the process.
  unfoldable pub new_in_cluster_controller : Kind → KeyFunctions → ℕ → M Controller
  unfolding new_controller
  new_in_cluster_controller kind K sync_interval = do
    wrap (errorf "Error creating in-cluster config: ") (lift N.in_cluster_config)
    wrap (errorf "Error creating Kubernetes clientset: ") (lift N.clientset)
    answer ←
        wrap (errorf "Error checking ArgoCD installation status: ") (is_argo_installed_and_ready c)
    fatal_unless_ready answer
    wrap (errorf "Error creating dynamic Kubernetes client: ") (lift N.dynamic_client)
    pure (new_controller kind K sync_interval)

  -- `main` of cmd/terraform-controller and of cmd/app-controller, up to their goroutines.
  module _ (getenv : String → String) (parse_duration : String → Result ℕ) where
    unfoldable pub boot_terraform_controller : KeyFunctions → M Controller
    unfolding new_in_cluster_controller get_sync_intervals
    boot_terraform_controller K =
        let (infra_sync_interval, _) = get_sync_intervals getenv parse_duration in
        new_in_cluster_controller terraforms K infra_sync_interval

    unfoldable pub boot_app_controller : KeyFunctions → M Controller
    unfolding new_in_cluster_controller get_sync_intervals
    boot_app_controller K =
        let (_, app_sync_interval) = get_sync_intervals getenv parse_duration in
        new_in_cluster_controller apps K app_sync_interval

    -- The command of this kind of resource.
    abbrev pub boot : Kind → KeyFunctions → M Controller
    boot terraforms = boot_terraform_controller
    boot apps = boot_app_controller
