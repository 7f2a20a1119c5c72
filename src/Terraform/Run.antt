-- ===== src/Terraform/Run.antt =====
-- `GetScriptContent` and `runApply`.
use alustan.Base.{
  ℕ, String, Bool, Result, ok, err, Error, new_error, StringMap, ◌<>◌, ◌==◌, find?, is_some,
  if◌then◌else◌,
}
use alustan.Cluster.{Cluster, M, pure, try, ◌>>=◌}
use alustan.Types.{Terraform, TerraformStatus, terraform_status, terraform_error_response}
use alustan.Kube.Retry.{Retry}
use alustan.Containers.RunPod.{create_or_update_run_pod}
use alustan.Containers.Wait.{wait_for_pod_completion}

unfoldable pub get_script_content : Terraform → Bool → String × TerraformStatus
get_script_content observed finalizing =
    let deploy = observed.spec.scripts.deploy in
    if finalizing
    then (observed.spec.scripts.destroy, terraform_status "" "")
    else if deploy == ""
    then ("", terraform_error_response "executing script" (new_error "deploy script is missing"))
    else (deploy, terraform_status "" "")

-- `strings.Contains(err.Error(), "timeout")`
abbrev pub is_timeout : Error → Bool
is_timeout e = is_some (find? e.message "timeout")

-- What a run of the program is made with: the pods' script, image, pull secret and variables.
pub record RunArgs : Type 0 where
  pub script_content : String
  pub tagged_image_name : String
  pub secret_name : String
  pub env_vars : StringMap String

module _ (c : Cluster) (R : Retry) (observed : Terraform) where
  -- The pod of a script, tried again while the error text speaks of a timeout.
  unfoldable pub run_pod_with_retry : RunArgs → String → M String
  run_pod_with_retry args app = R.on_error is_timeout (
      create_or_update_run_pod c observed.metadata.name observed.metadata.namespace
        args.script_content args.env_vars args.tagged_image_name args.secret_name app)

  abbrev pub after_wait : Result (Unit {0}) → M TerraformStatus
  after_wait (ok _) = pure (terraform_status "Success" "Terraform applied successfully")
  after_wait (err e) =
      pure (terraform_status "Failed" ("Error retrieving Terraform output: " <> e.message))

  abbrev pub after_pod : ℕ → Result String → M TerraformStatus
  after_pod fuel (err e) = pure (terraform_status "Failed" e.message)
  after_pod fuel (ok pod_name) = do
    r ← try (wait_for_pod_completion c observed.metadata.namespace pod_name fuel)
    after_wait r

  -- `runApply`
  unfoldable pub run_apply : RunArgs → ℕ → M TerraformStatus
  run_apply args fuel = do r ← try (run_pod_with_retry args "deploy"); after_pod fuel r
