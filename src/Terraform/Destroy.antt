-- ===== src/Terraform/Destroy.antt =====
-- `runDestroy`: the destroy script runs in a pod, and the finalizer goes once the pod succeeded.
pub mod Laws
use alustan.Base.{
  ℕ, zero, suc, String, Bool, Result, ok, err, Error, errorf, new_error, ◌<>◌, ◌==◌, if◌then◌else◌,
}
use alustan.Cluster.{
  Cluster, PodPhase, succeeded, failed, terraforms, M, call, pure, raise, try, wrap, still_waiting,
  ◌>>=◌, get_pod,
}
use alustan.Types.{Terraform, TerraformStatus, terraform_status}
use alustan.Kube.Retry.{Retry, Unstructured}
use alustan.Kube.Finalizer.{remove_finalizer}
use alustan.Terraform.Run.{RunArgs, run_pod_with_retry}

module _ (c : Cluster) (namespace pod_name : String) where
  abbrev decide : PodPhase → M (Unit {0}) → M (Unit {0})
  decide succeeded again = pure tt
  decide failed again = raise (new_error ("pod " <> pod_name <> " failed"))
  decide _ again = again

  -- The loop that watches the destroy pod; an error carries the message of the status.
  unfoldable pub await_destroyed : ℕ → M (Unit {0})
  await_destroyed zero = still_waiting
  await_destroyed (suc fuel) = do
    pod ← wrap (errorf "Failed to get pod: ") (call c.pod (get_pod namespace pod_name))
    decide pod.phase (await_destroyed fuel)

module _ (c : Cluster) (R : Retry) (U : Unstructured) (observed : Terraform) where
  abbrev after_remove : Result (Unit {0}) → M TerraformStatus
  after_remove (ok _) = pure (terraform_status "Success" "Destroy completed successfully")
  after_remove (err e) =
      pure (terraform_status "Error" ("Failed to remove finalizer: " <> e.message))

  abbrev after_destroyed : Result (Unit {0}) → M TerraformStatus
  after_destroyed (err e) = pure (terraform_status "Failed" e.message)
  after_destroyed (ok _) = do
    r ← try (remove_finalizer c R U terraforms observed.metadata.name observed.metadata.namespace)
    after_remove r

  abbrev after_pod : ℕ → Result String → M TerraformStatus
  after_pod fuel (err e) = pure (terraform_status "Failed" e.message)
  after_pod fuel (ok pod_name) = do
    r ← try (await_destroyed c observed.metadata.namespace pod_name fuel)
    after_destroyed r

  -- `runDestroy`
  unfoldable pub run_destroy : RunArgs → ℕ → M TerraformStatus
  run_destroy args fuel =
      if args.script_content == ""
      then pure (terraform_status "Success" "No destroy script specified")
      else do r ← try (run_pod_with_retry c R observed args "destroy"); after_pod fuel r
