-- ===== src/Cluster/Monad.antt =====
-- Requests, the history of those sent, and the actions of the program over them.
use alustan.Base.{Bool, String, Error, Result, ok, err, List, ◌∷◌}
use alustan.Value.{Fields}
use alustan.Cluster.Objects.{
  Kind, Pod, Secret, ConfigMap, ServiceAccount, ClusterRole, ClusterRoleBinding, ArgoCluster,
  Application, ApplicationSet, Deployment, Response,
}

-- One request each: those of the dynamic client, of the typed clients, of the Argo CD clients, of
-- plain HTTP (`http_get` with its URL and bearer token) and of Helm. A list request names its namespace and selector.
pub data Request : Type 0 where
  get_object : Kind → String → String → Request
  update_object : Kind → String → Fields → Request
  update_object_status : Kind → String → Fields → Request
  list_objects : Kind → String → Request
  create_namespace get_namespace : String → Request
  list_namespaces : Request
  list_ingresses : String → Request
  get_service_account : String → String → Request
  create_service_account : String → ServiceAccount → Request
  create_cluster_role : ClusterRole → Request
  create_cluster_role_binding : ClusterRoleBinding → Request
  get_pod delete_pod get_pod_logs : String → String → Request
  create_pod update_pod : String → Pod → Request
  get_secret delete_secret : String → String → Request
  create_secret update_secret : String → Secret → Request
  list_secrets : String → String → String → Request
  get_config_map : String → String → Request
  create_config_map update_config_map : String → ConfigMap → Request
  get_deployment : String → String → Request
  list_clusters : Request
  create_cluster update_cluster : ArgoCluster → Request
  create_application_set : ApplicationSet → Request
  delete_application_set : String → Request
  get_application : String → String → Request
  list_applications : String → Request
  http_get : String → String → Request
  post_session : String → String → Request
  create_argo_client : String → Request
  create_cluster_client create_application_set_client create_application_client : String → Request
  list_repo_creds : Request
  create_repo_creds : String → String → Request
  get_claim : String → String → Request
  create_claim : String → String → Request
  helm_index helm_repositories helm_write_repositories helm_locate helm_load : Request
  helm_status helm_history : String → Request
  helm_upgrade : String → Fields → Request
  helm_install : String → Bool → Fields → Request

-- The requests sent, the last one first.
abbrev pub History : Type 0
History = List Request

-- The answers, one function for each type of answer; `ack` answers where only the error is read.
pub record Cluster : Type 0 where
  pub ack : History → Request → Result (Unit {0})
  pub object : History → Request → Result Fields
  pub objects : History → Request → Result (List Fields)
  pub names : History → Request → Result (List String)
  pub hosts : History → Request → Result (List (List String))
  pub service_account : History → Request → Result ServiceAccount
  pub pod : History → Request → Result Pod
  pub logs : History → Request → Result String
  pub secret : History → Request → Result Secret
  pub secrets : History → Request → Result (List Secret)
  pub config_map : History → Request → Result ConfigMap
  pub deployment : History → Request → Result Deployment
  pub clusters : History → Request → Result (List ArgoCluster)
  pub application : History → Request → Result Application
  pub applications : History → Request → Result (List Application)
  pub response : History → Request → Result Response
  pub texts : History → Request → Result (List String)
  pub flag : History → Request → Result Bool

-- A call has returned, or is still waiting in a loop whose bound was reached, or the process has ended
-- in it, as by a panic.
pub data Outcome (A : Type 0) : Type 0 where
  returns : Result A → Outcome A
  waiting crashed : Outcome A

abbrev pub M : Type 0 → Type 0
M A = History → Outcome A × History

module _ {A : Type 0} where
  abbrev pub pure : A → M A
  pure a h = (returns (ok a), h)

  abbrev pub raise : Error → M A
  raise e h = (returns (err e), h)

  abbrev pub lift : Result A → M A
  lift r h = (returns r, h)

  -- The bound of a loop is reached.
  abbrev pub still_waiting : M A
  still_waiting h = (waiting, h)

  -- A panic that nobody recovers from.
  abbrev pub crash : M A
  crash h = (crashed, h)

  -- `logger.Fatalf` at an error: the process ends.
  abbrev pub or_exit : Result A → M A
  or_exit (ok a) = pure a
  or_exit (err e) = crash

  -- Sends one request.
  abbrev pub call : (History → Request → Result A) → Request → M A
  call answer q h = (returns (answer h q), q ∷ h)

  abbrev pub caught : Outcome A → Outcome (Result A)
  caught (returns r) = returns (ok r)
  caught waiting = waiting
  caught crashed = crashed

  -- `a, err := m` where the caller looks at `err` itself.
  abbrev pub try : M A → M (Result A)
  try m h = let (o, h') = m h in (caught o, h')

module _ {A B : Type 0} where
  abbrev pub continue : Outcome A → (A → M B) → M B
  continue (returns (ok a)) f h = f a h
  continue (returns (err e)) f h = (returns (err e), h)
  continue waiting f h = (waiting, h)
  continue crashed f h = (crashed, h)

  infixl 10 ◌>>=◌ ◌>>◌
  -- `a, err := m; if err != nil { return err }`
  abbrev pub ◌>>=◌ : M A → (A → M B) → M B
  ◌>>=◌ m f h = let (o, h') = m h in continue o f h'

  abbrev pub ◌>>◌ : M A → M B → M B
  m >> n = m >>= λ _. n

-- The error that a caller wraps before it returns it.
abbrev pub rethrow : {A : Type 0} → (Error → Error) → Outcome A → Outcome A
rethrow f (returns (ok a)) = returns (ok a)
rethrow f (returns (err e)) = returns (err (f e))
rethrow f waiting = waiting
rethrow f crashed = crashed

abbrev pub wrap : {A : Type 0} → (Error → Error) → M A → M A
wrap f m h = let (o, h') = m h in (rethrow f o, h')
