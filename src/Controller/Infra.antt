-- ===== src/Controller/Infra.antt =====
-- pkg/infrastructure/controller/controller.go: the synchronisation of one Terraform resource.
pub mod Laws
pub mod Termination
pub mod Converged
pub mod Undestroyed
pub mod Provisioned
pub mod Failed
use alustan.Base.{
  ℕ, String, Bool, Option, none, some, List, [], Result, ok, err, Error, new_error, StringMap,
  is_some, ◌<>◌, ◌==◌, if◌then◌else◌,
}
use alustan.Cluster.{terraforms, M, pure, try, ◌>>=◌}
use alustan.Types.{Terraform, TerraformStatus, terraform_status}
use alustan.Util.{extract_env_vars}
use alustan.Kube.Retry.{Converter}
use alustan.Kube.Finalizer.{add_finalizer}
use alustan.Kube.Status.{update_terraform_status}
use alustan.Containers.DockerSecret.{Decoding}
use alustan.Registry.LatestTag.{Semver}
use alustan.Registry.TaggedImage.{get_tagged_image_name}
use alustan.Terraform.Run.{get_script_content}
use alustan.Terraform.Execute.{Services, execute_terraform}
use alustan.Controller.Worker.{Resource, Cache, QueueObject, QueueCall, process_next_work_item}
use alustan.Registry.Clients.{TagDecoding}

abbrev pub or_base : String → String → String
or_base base new = if new == "" then base else new

abbrev pub or_output :
    Option (StringMap String) → Option (StringMap String) → Option (StringMap String)
or_output base none = base
or_output base (some output) = some output

-- `mergeStatuses`
unfoldable pub merge_statuses : TerraformStatus → TerraformStatus → TerraformStatus
merge_statuses base new = record base {
  state = or_base base.state new.state;
  message = or_base base.message new.message;
  post_deploy_output = or_output base.post_deploy_output new.post_deploy_output;
}

-- A nil map of variables has no entries.
abbrev pub entries : Option (StringMap String) → StringMap String
entries none = []
entries (some vars) = vars

-- Everything outside the controller's own code that the synchronisation uses.
pub record Setup (V : Type 0) : Type 1 where
  pub services : Services
  pub semver : Semver V
  pub decoding : Decoding
  pub tag_decoding : TagDecoding
  pub getenv : String → String
  pub fuel : ℕ

module _ {V : Type 0} (E : Setup V) where
  -- The last step; an error is recognised by the state of the step, and the merged status is
  -- returned.
  unfoldable pub run_terraform :
      Terraform → Bool → String → TerraformStatus → String → M (TerraformStatus × Option Error)
  run_terraform observed finalizing script_content common tagged_image_name = do
    executed ←
        execute_terraform E.services observed
          (record {
            script_content = script_content;
            tagged_image_name = tagged_image_name;
            secret_name = observed.metadata.name <> "-container-secret";
            env_vars = entries (extract_env_vars observed.spec.variables);
          })
          finalizing E.fuel
    let merged = merge_statuses common executed
    (if executed.state == "Error"
        then pure (merged, some (new_error "error executing terraform"))
        else pure (merged, none))

  abbrev pub after_image :
      Terraform
      → Bool
      → String
      → TerraformStatus
      → String × TerraformStatus
      → M (TerraformStatus × Option Error)
  after_image observed finalizing script_content common (image, image_status) =
      if image_status.state == "Error"
      then pure
          (merge_statuses common image_status, some (new_error "error getting tagged image name"))
      else run_terraform observed finalizing script_content (merge_statuses common image_status)
          image

  unfoldable pub sync_image :
      Terraform → Bool → String → TerraformStatus → M (TerraformStatus × Option Error)
  sync_image observed finalizing script_content common =
      get_tagged_image_name E.semver E.decoding E.tag_decoding E.getenv E.services.cluster observed
        finalizing
      >>= after_image observed finalizing script_content common

  -- What follows the finalizer.
  unfoldable pub sync_script : Terraform → TerraformStatus → M (TerraformStatus × Option Error)
  sync_script observed common =
      let finalizing = is_some observed.metadata.deletion_timestamp in
      let (script_content, script_status) = get_script_content observed finalizing in
      let merged = merge_statuses common script_status in
      if script_status.state == "Error"
      then pure (merged, some (new_error "error getting script content"))
      else sync_image observed finalizing script_content merged

  abbrev pub after_finalizer : Terraform → Result (Unit {0}) → M (TerraformStatus × Option Error)
  after_finalizer observed (err e) =
      pure (terraform_status "Error" ("Failed to add finalizer: " <> e.message), some e)
  after_finalizer observed (ok _) =
      sync_script observed (terraform_status "Progressing" "Starting processing")

  -- `handleSyncRequest`
  unfoldable pub handle_sync_request : Terraform → M (TerraformStatus × Option Error)
  handle_sync_request observed = do
    r ← try (
        add_finalizer E.services.cluster E.services.retry E.services.objects terraforms
          observed.metadata.name observed.metadata.namespace)
    after_finalizer observed r

  -- The controller as the work item sees it; `updateStatus` passes the error on.
  unfoldable pub terraform_resource : Converter Terraform → Resource Terraform TerraformStatus
  terraform_resource codec = record {
    from_unstructured = codec.from_unstructured;
    generation = λ t. t.metadata.generation;
    observed_generation = λ t. t.status.observed_generation;
    message = λ s. s.message;
    set_observed_generation = λ n s. record s { observed_generation = n };
    handle_sync_request = handle_sync_request;
    update_status = λ t s.
        update_terraform_status E.services.cluster E.services.retry codec t.metadata.name
          t.metadata.namespace s;
  }

  -- `processNextWorkItem` of the infrastructure controller
  unfoldable pub process_next_terraform :
      Converter Terraform → Cache → QueueObject → M (Bool × List QueueCall)
  process_next_terraform codec cache = process_next_work_item (terraform_resource codec) cache
