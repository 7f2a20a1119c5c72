-- ===== src/Lib.antt =====
-- The two controllers of a Kubernetes operator and its installer. The infrastructure controller
-- runs the Terraform scripts of a `Terraform` resource in pods; the application controller turns
-- an `App` resource into an Argo CD ApplicationSet. Both watch their resource, put its key into
-- a work queue, and let a pool of workers synchronise one key at a time.
--
-- How the code is read: every request to the API server, to Argo CD or to a registry is a
-- `Request`. An action is a function from the history of the requests sent so far, the last
-- first, to its outcome and the longer history; `Cluster` holds one answer function for each
-- type of answer, which may depend on the whole history, so a theorem about all clusters is
-- about all behaviours of the servers, failures and interference included. An action returns a
-- value or an error, or it is still waiting, or the process has ended in it by a panic or
-- `Fatalf`. An error has the reason by which the code recognises it and its message;
-- `fmt.Errorf` with `%v` drops the reason, with `%w` it is kept. A Go map is the list of its
-- entries in the order of one `range`. Log lines are left out.
--
-- Files and sources (paths from the repository's root):
--   Value, Types         api/app/v1alpha1, api/infrastructure/v1alpha1, the errorstatus packages;
--                        dynamic values (`interface{}`)
--   DeepCopy             the deepcopy.go of both API packages, over a memory of objects and maps
--   Cluster              requests, answers, actions, and the rules for their invariants
--   Util                 pkg/util: ContainsString, RemoveString, ExtractEnvVars, GetConfigMapContent,
--                        GetDataFromSecret, GetSyncIntervals, GetUniqueID
--   Kube                 pkg/infrastructure/kubernetes and pkg/application/kubernetes: AddFinalizer,
--                        RemoveFinalizer, UpdateStatus, CreateOrUpdateArgoCluster,
--                        CreateOrUpdateSecretWithGitHubPAT, GetAllIngressURLs
--   Containers           pkg/containers: CreateOrUpdateRunPod, WaitForPodCompletion,
--                        ExtractPostDeployOutput, CreateDockerConfigSecret,
--                        CreateOrUpdateServiceAccountAndRoles, EnsurePVC
--   Registry             pkg/infrastructure/registry, pkg/application/registry, and pkg/imagetag,
--                        the HTTP clients
--   Terraform            pkg/infrastructure/terraform: ExecuteTerraform, runApply, runDestroy,
--                        runPostDeploy
--   Service              pkg/application/service: RunService, CreateApplicationSet,
--                        DeleteApplicationSet, the dependencies, and the changes to the values
--   ArgoReady            pkg/checkargo: IsArgoCDInstalledAndReady, also the installer's copy of it
--   ArgoLogin            the login to Argo CD of which both controllers and the installer have a copy
--   Install              cmd/install-argocd: InstallArgoCD with Helm, storeSSHKeyFromEnv, main
--   Controller           pkg/infrastructure/controller and pkg/application/controller: Worker is
--                        processNextWorkItem of both, Infra and Application are handleSyncRequest and
--                        mergeStatuses of each, Session is the Argo CD token and the clients; Lister
--                        is the two listers packages and the event handlers; Pool is manageWorkers
--                        one round after the other, Pool.Steps the same with runWorker and the loss
--                        of the leadership as goroutines that interleave; Boot is the creation of a
--                        controller by cmd/terraform-controller and cmd/app-controller, and Process
--                        the running command: RunLeader with its callbacks, the workers and the
--                        handler of signals
--   Tests                examples on a small cluster
--
-- How the parts meet: Controller.Worker takes a `Resource`, which Controller.Infra and
-- Controller.Application fill with their handleSyncRequest and updateStatus. These call Kube for
-- finalizers and statuses, Registry for the tag, and Terraform or Service for the work, which
-- call Containers and Kube. Controller.Lister makes the cache of a work item from the index of
-- the informer. Pool.Steps has the counters of Pool, and each of its busy workers is in one
-- processNextWorkItem. Boot asks ArgoReady before it makes a controller, and a step of Process
-- is one of Session, of Pool.Steps or of the elector, so what Session and Pool show of their own
-- steps holds of the command. Install uses ArgoReady and ArgoLogin.
--
-- Parameters, with what their documentation promises: the retry and back-off loops of client-go
-- and apimachinery (`Retry`, `Backoff`: their runs are a relation), the unstructured helpers and
-- converters, semantic versions, JSON, YAML, base64, Go templates, the informer's index and key
-- functions, Helm's library, the parser of SSH keys, the environment, and the generator of
-- identifiers.
--
-- Loops that poll a pod have no bound in the code. They are given fuel, the number of polls, and
-- when it is used up the outcome is `waiting`, which no caller takes for an error or a success;
-- one poll more than come before the pod ends is enough. The wait for the dependencies runs over
-- the signals that arrive, ticks and the timeout.
--
-- Not modelled: the constructors of the API clients and the protocol of the leader election,
-- which are third-party (its callbacks are modelled, and a candidate may become the leader at
-- any time), the registration of the API types, the version output and the loggers, time limits
-- and sleeping.
pub mod Base
pub mod Value
pub mod Cluster
pub mod Types
pub mod DeepCopy
pub mod Util
pub mod Kube
pub mod Containers
pub mod Registry
pub mod Terraform
pub mod ArgoReady
pub mod ArgoLogin
pub mod Install
pub mod Controller
pub mod Service
pub mod Tests
