-- ===== src/Containers/RunPod.antt =====
-- pkg/containers/runPod.go: the pod of a script is created anew, in place of one that is there.
pub mod Laws
use alustan.Base.{
  String, Bool, List, [], ◌∷◌, ◌++◌, Error, Result, ok, err, is_not_found, ◌<>◌, StringMap,
  if◌then◌else◌,
}
use alustan.Cluster.{
  Cluster, Pod, pending, M, call, pure, raise, try, ◌>>=◌, ◌>>◌, get_pod, update_pod, delete_pod,
  create_pod,
}
use alustan.Containers.Script.{script_env}
use alustan.Containers.ServiceAccount.{create_service_account_and_roles}

abbrev pub pod_name_of : String → String → String
pod_name_of name app = name <> "-" <> app <> "-docker-run-pod"

-- The pod that is sent, from the account, script line, variables, image and pull secret.
unfoldable pub new_pod :
    String → String → String → String → StringMap String → String → String → Pod
new_pod name app account script_name env_vars image pull_secret = record {
  name = pod_name_of name app;
  labels = ("apprun", name <> "-" <> app) ∷ [];
  finalizers = [];
  spec = record {
    service_account_name = account;
    image = image;
    env = env_vars ++ script_env script_name;
    image_pull_secret = pull_secret;
  };
  phase = pending;
}

module _ (c : Cluster) (namespace : String) where
  -- `if len(existingPod.ObjectMeta.Finalizers) > 0 { ... }`
  abbrev pub drop_finalizers : Pod → List String → M (Unit {0})
  drop_finalizers pod [] = pure tt
  drop_finalizers pod (_ ∷ _) = call c.ack (update_pod namespace (record pod { finalizers = [] }))

  -- The existing pod, if the server has one, is released and deleted.
  abbrev pub clear_existing : Result Pod → M (Unit {0})
  clear_existing (ok pod) = do
    drop_finalizers pod pod.finalizers
    call c.ack (delete_pod namespace pod.name)
  clear_existing (err e) = if is_not_found e then pure tt else raise e

  unfoldable pub replace_pod : Pod → M String
  replace_pod pod = do
    existing ← try (call c.pod (get_pod namespace pod.name))
    clear_existing existing
    call c.ack (create_pod namespace pod)
    pure pod.name

-- `CreateOrUpdateRunPod`
unfoldable pub create_or_update_run_pod :
    Cluster → String → String → String → StringMap String → String → String → String → M String
create_or_update_run_pod c name namespace script_name env_vars image pull_secret app = do
  account ← create_service_account_and_roles c name namespace
  replace_pod c namespace (new_pod name app account script_name env_vars image pull_secret)
