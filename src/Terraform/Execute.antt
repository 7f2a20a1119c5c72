-- ===== src/Terraform/Execute.antt =====
-- `ExecuteTerraform`.
pub mod Laws
use alustan.Base.{
  ℕ, String, Bool, Option, none, some, Result, ok, err, StringMap, ◌==◌, if◌then◌else◌,
}
use alustan.Cluster.{Cluster, M, pure, try, ◌>>=◌}
use alustan.Types.{Terraform, TerraformStatus, terraform_status, terraform_error_response}
use alustan.Kube.Retry.{Retry, Unstructured}
use alustan.Kube.ArgoCluster.{Backoff, create_or_update_argo_cluster}
use alustan.Terraform.Run.{RunArgs, run_apply}
use alustan.Terraform.PostDeploy.{Json, run_post_deploy}
use alustan.Terraform.Destroy.{run_destroy}

-- What the controller runs against.
pub record Services : Type 1 where
  pub cluster : Cluster
  pub retry : Retry
  pub backoff : Backoff
  pub objects : Unstructured
  pub json : Json
  pub has_cluster_client : Bool

module _ (E : Services) (observed : Terraform) where
  abbrev pub provisioned : Option (StringMap String) → TerraformStatus
  provisioned output =
      record (terraform_status "Completed" "Infrastructure successfuly provisioned") {
        post_deploy_output = output;
      }

  abbrev pub after_post_deploy : Result (StringMap String) → M TerraformStatus
  after_post_deploy (ok output) = pure (provisioned (some output))
  after_post_deploy (err e) = pure (terraform_error_response "executing postDeploy script" e)

  abbrev pub after_argo : RunArgs → ℕ → Result (Unit {0}) → M TerraformStatus
  after_argo args fuel (err e) =
      pure (terraform_error_response "Failed to create or update ArgoCD secret" e)
  after_argo args fuel (ok _) =
      if observed.spec.post_deploy.script == ""
      then pure (provisioned none)
      else do r ← try (run_post_deploy E.json E.cluster observed args fuel); after_post_deploy r

  -- What follows `runApply`, from its status.
  unfoldable pub after_apply : RunArgs → ℕ → TerraformStatus → M TerraformStatus
  after_apply args fuel status =
      if status.state == "Failed" then pure (terraform_status status.state status.message) else do
        r ← try (
            create_or_update_argo_cluster E.cluster E.backoff E.has_cluster_client "in-cluster"
              observed.spec.environment)
        after_argo args fuel r

  unfoldable pub execute_terraform : RunArgs → Bool → ℕ → M TerraformStatus
  execute_terraform args finalizing fuel =
      if finalizing
      then run_destroy E.cluster E.retry E.objects observed args fuel
      else do status ← run_apply E.cluster E.retry observed args fuel; after_apply args fuel status
