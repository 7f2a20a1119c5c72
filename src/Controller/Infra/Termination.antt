-- ===== src/Controller/Infra/Termination.antt =====
-- About the work items of the infrastructure controller when the pods that they wait for end.
use alustan.Base.{some, is_some, new_error, ◌==◌, ◌<>◌, String, Bool, arith}
use alustan.Cluster.{pure, terraforms, Returns, Returns-bind, Returns-if, Returns-catch, History}
use alustan.Types.{Terraform, TerraformStatus, terraform_status}
use alustan.Kube.Retry.{Converter}
use alustan.Kube.Finalizer.{add_finalizer}
use alustan.Kube.Termination.{add_finalizer-Returns, update_terraform_status-Returns}
use alustan.Registry.TaggedImage.{get_tagged_image_name}
use alustan.Registry.Termination.{get_tagged_image_name-Returns}
use alustan.Containers.Termination.{PodsEnd, SecretsHaveData}
use alustan.Terraform.Run.{get_script_content}
use alustan.Terraform.Termination.{execute_terraform-Returns}
use alustan.Util.{extract_env_vars}
use alustan.Controller.Worker.{Cache, key}
use alustan.Controller.Worker.Termination.{IsHandedBack, process_next_work_item-IsHandedBack}
use alustan.Controller.Infra.{
  Setup, run_terraform, after_image, sync_image, sync_script, after_finalizer, handle_sync_request,
  terraform_resource, process_next_terraform, entries, merge_statuses,
}
use alustan.Controller.Infra.Laws.{handle_sync_request-NeverRaises}

module _ {V : Type 0} (E : Setup V) (ends : PodsEnd E.services.cluster E.fuel)
    (observed : Terraform) where
  pub run_terraform-Returns :
      (finalizing : Bool) (script_content : String) (common : TerraformStatus) (image : String)
      → Returns (run_terraform E observed finalizing script_content common image)
  unfolding run_terraform
  run_terraform-Returns finalizing script_content common image h = ground (
    arith,
    execute_terraform-Returns E.services observed
        (record {
          script_content = script_content;
          tagged_image_name = image;
          secret_name = observed.metadata.name <> "-container-secret";
          env_vars = entries (extract_env_vars observed.spec.variables);
        })
        E.fuel ends finalizing h,
  )

module _ {V : Type 0} (E : Setup V) (ends : PodsEnd E.services.cluster E.fuel)
    (filled : SecretsHaveData E.services.cluster) (observed : Terraform) where
  image_known :
      (finalizing : Bool) (script_content : String) (common : TerraformStatus)
      (r : String × TerraformStatus)
      → Returns (after_image E observed finalizing script_content common r)
  image_known finalizing script_content common (image, image_status) =
      Returns-if (image_status.state == "Error") _ _ (λ h. tt)
        (run_terraform-Returns E ends observed finalizing script_content
          (merge_statuses common image_status) image)

  sync_image-Returns :
      (finalizing : Bool) (script_content : String) (common : TerraformStatus)
      → Returns (sync_image E observed finalizing script_content common)
  unfolding sync_image
  sync_image-Returns finalizing script_content common =
      Returns-bind
        (get_tagged_image_name E.semver E.decoding E.tag_decoding E.getenv E.services.cluster
          observed finalizing)
        (after_image E observed finalizing script_content common)
        (get_tagged_image_name-Returns E.semver E.decoding E.tag_decoding E.getenv
          E.services.cluster filled observed finalizing)
        (image_known finalizing script_content common)

  sync_script-Returns : (common : TerraformStatus) → Returns (sync_script E observed common)
  unfolding sync_script
  sync_script-Returns common =
      let finalizing = is_some observed.metadata.deletion_timestamp in
      let script = get_script_content observed finalizing in
      Returns-if (script.1.state == "Error")
        (pure (merge_statuses common script.1, some (new_error "error getting script content")))
        (sync_image E observed finalizing script.0 (merge_statuses common script.1)) (λ h. tt)
        (sync_image-Returns finalizing script.0 (merge_statuses common script.1))

  handle_sync_request-Returns : Returns (handle_sync_request E observed)
  unfolding handle_sync_request
  handle_sync_request-Returns =
      Returns-catch
        (add_finalizer E.services.cluster E.services.retry E.services.objects terraforms
          observed.metadata.name observed.metadata.namespace)
        (after_finalizer E observed)
        (add_finalizer-Returns E.services.cluster E.services.retry E.services.objects terraforms
          observed.metadata.name observed.metadata.namespace)
        (λ _. sync_script-Returns (terraform_status "Progressing" "Starting processing"))
        (λ e h. tt)

-- If every pod that is polled ends within the fuel, or its poll fails, and every secret that the
-- server answers with has data, then each key that the infrastructure controller takes is processed
-- to the end, whatever else the servers answer: nothing panics, the worker goes on, and the key is handed back once, after it was forgotten, or put back, or neither.
pub process_next_terraform-IsHandedBack :
    {V : Type 0} (E : Setup V) (codec : Converter Terraform) (cache : Cache)
    → PodsEnd E.services.cluster E.fuel
    → SecretsHaveData E.services.cluster
    → (k : String) (h : History) → IsHandedBack (process_next_terraform E codec cache (key k) h).0
unfolding process_next_terraform terraform_resource
process_next_terraform-IsHandedBack E codec cache ends filled =
    process_next_work_item-IsHandedBack (terraform_resource E codec) cache
      (handle_sync_request-Returns E ends filled)
      (λ resource status.
        update_terraform_status-Returns E.services.cluster E.services.retry codec
          resource.metadata.name resource.metadata.namespace status)
      (handle_sync_request-NeverRaises E)
