-- ===== src/Containers/Wait.antt =====
-- pkg/containers/waitForPodCompletion.go and extractPostDeployOutput.go. Both poll the pod once a
-- minute for as long as it takes; the fuel bounds the number of polls that are followed.
pub mod Laws
use alustan.Base.{ℕ, zero, suc, String, Option, none, some, Error, Result, ok, err, ◌<>◌, new_error}
use alustan.Value.{Value, Fields, obj, end, field, get, as_map}
use alustan.Cluster.{
  Cluster, Pod, PodPhase, succeeded, failed, M, still_waiting, call, lift, pure, raise, try, ◌>>=◌,
  ◌>>◌, get_pod, get_pod_logs,
}

module _ (c : Cluster) (namespace pod_name : String) where
  -- What one poll decides: the loop ends well, ends with an error, or goes on.
  abbrev decide : PodPhase → M (Unit {0}) → M (Unit {0})
  decide succeeded again = pure tt
  decide failed again = raise (new_error ("pod " <> pod_name <> " failed"))
  decide _ again = again

  -- `WaitForPodCompletion`
  unfoldable pub wait_for_pod_completion : ℕ → M (Unit {0})
  wait_for_pod_completion zero = still_waiting
  wait_for_pod_completion (suc fuel) = do
    pod ← call c.pod (get_pod namespace pod_name)
    decide pod.phase (wait_for_pod_completion fuel)

  abbrev outputs_or_error : Option Fields → Result Fields
  outputs_or_error none = err (new_error "outputs field not found or invalid format")
  outputs_or_error (some outputs) = ok outputs

  -- Each output becomes an object with the one field "value".
  unfoldable pub wrap_values : Fields → Fields
  wrap_values end = end
  wrap_values (field key value fs) = field key (obj (field "value" value end)) (wrap_values fs)

  -- `ExtractPostDeployOutput`, where `unmarshal` is `json.Unmarshal` into a map.
  unfoldable pub extract_post_deploy_output : (String → Result Fields) → ℕ → M Fields
  extract_post_deploy_output unmarshal fuel = do
    wait_for_pod_completion fuel
    logs ← call c.logs (get_pod_logs namespace pod_name)
    log_output ← lift (unmarshal logs)
    outputs ← lift (outputs_or_error (as_map (get "outputs" log_output)))
    pure (wrap_values outputs)
