-- ===== src/Controller/Infra/Laws.antt =====
-- The synchronisation of a Terraform resource: statuses, errors and the finalizer.
use alustan.Base.{
  new_error, is_some, false, true, ◌==◌, ◌⊎◌, ◌<>◌, [], ◌∷◌, true, List, String, ◌≡◌, refl, some,
  arith, eq_iff, ok, Bool,
}
use alustan.Cluster.{
  pure, terraforms, returns, NeverRaises-catch, NeverRaises, NeverRaises-if, NeverRaises-bind,
  History,
}
use alustan.Types.{Terraform, TerraformStatus, terraform_status}
use alustan.Controller.Infra.{
  after_finalizer, entries, after_image, terraform_resource, process_next_terraform, run_terraform,
  sync_script, sync_image, merge_statuses, Setup, handle_sync_request,
}
use alustan.Terraform.Destroy.{run_destroy}
use alustan.Terraform.Run.{get_script_content, run_apply, RunArgs}
use alustan.Kube.Retry.{Converter}
use alustan.Terraform.Execute.{after_apply, execute_terraform}
use alustan.Controller.Worker.{add_rate_limited, done, forget, key, QueueCall, Cache}
use alustan.Registry.TaggedImage.{get_tagged_image_name}
use alustan.Kube.Finalizer.{add_finalizer}
use alustan.Util.{extract_env_vars}
use alustan.Controller.Worker.Laws.{process_next_work_item-settles}

-- Merging is associative, a status with all zero fields changes nothing, and the observed
-- generation of the base is kept: only handleSyncRequest's caller sets it.
pub merge_statuses_lem :
    (a b c : TerraformStatus)
    → (merge_statuses (merge_statuses a b) c ≡ merge_statuses a (merge_statuses b c))
      × (merge_statuses a (terraform_status "" "") ≡ a)
      × ((merge_statuses a b).observed_generation ≡ a.observed_generation)
unfolding merge_statuses
merge_statuses_lem a b c = (
  ground (arith, eq_iff b.state "", eq_iff c.state "", eq_iff b.message "", eq_iff c.message ""),
  ground arith,
  refl,
)

module _ {V : Type 0} (E : Setup V) (observed : Terraform) where
  run_destroy-NeverRaises :
      (args : RunArgs)
      → NeverRaises
          (run_destroy E.services.cluster E.services.retry E.services.objects observed args E.fuel)
  unfolding run_destroy
  run_destroy-NeverRaises args h = ground arith

  run_apply-NeverRaises :
      (args : RunArgs)
      → NeverRaises (run_apply E.services.cluster E.services.retry observed args E.fuel)
  unfolding run_apply
  run_apply-NeverRaises args h = ground arith

  after_apply-NeverRaises :
      (args : RunArgs) (status : TerraformStatus)
      → NeverRaises (after_apply E.services observed args E.fuel status)
  unfolding after_apply
  after_apply-NeverRaises args status h = ground arith

  execute_terraform-NeverRaises :
      (args : RunArgs) (finalizing : Bool)
      → NeverRaises (execute_terraform E.services observed args finalizing E.fuel)
  unfolding execute_terraform
  execute_terraform-NeverRaises args true = run_destroy-NeverRaises args
  execute_terraform-NeverRaises args false =
      NeverRaises-bind (run_apply E.services.cluster E.services.retry observed args E.fuel)
        (after_apply E.services observed args E.fuel) (run_apply-NeverRaises args)
        (after_apply-NeverRaises args)

  pub run_terraform-NeverRaises :
      (finalizing : Bool) (script_content : String) (common : TerraformStatus) (image : String)
      → NeverRaises (run_terraform E observed finalizing script_content common image)
  unfolding run_terraform
  run_terraform-NeverRaises finalizing script_content common image h = ground (
    arith,
    execute_terraform-NeverRaises
        (record {
          script_content = script_content;
          tagged_image_name = image;
          secret_name = observed.metadata.name <> "-container-secret";
          env_vars = entries (extract_env_vars observed.spec.variables);
        })
        finalizing h,
  )

  get_tagged_image_name-NeverRaises :
      (finalizing : Bool)
      → NeverRaises (
          get_tagged_image_name E.semver E.decoding E.tag_decoding E.getenv E.services.cluster
            observed finalizing)
  unfolding get_tagged_image_name
  get_tagged_image_name-NeverRaises finalizing h = ground arith

  image_known :
      (finalizing : Bool) (script_content : String) (common : TerraformStatus)
      (r : String × TerraformStatus)
      → NeverRaises (after_image E observed finalizing script_content common r)
  image_known finalizing script_content common (image, image_status) =
      NeverRaises-if (image_status.state == "Error") _ _ (λ h. tt)
        (run_terraform-NeverRaises finalizing script_content (merge_statuses common image_status)
          image)

  sync_image-NeverRaises :
      (finalizing : Bool) (script_content : String) (common : TerraformStatus)
      → NeverRaises (sync_image E observed finalizing script_content common)
  unfolding sync_image
  sync_image-NeverRaises finalizing script_content common =
      NeverRaises-bind
        (get_tagged_image_name E.semver E.decoding E.tag_decoding E.getenv E.services.cluster
          observed finalizing)
        (after_image E observed finalizing script_content common)
        (get_tagged_image_name-NeverRaises finalizing)
        (image_known finalizing script_content common)

  sync_script-NeverRaises : (common : TerraformStatus) → NeverRaises (sync_script E observed common)
  unfolding sync_script
  sync_script-NeverRaises common =
      let finalizing = is_some observed.metadata.deletion_timestamp in
      let script = get_script_content observed finalizing in
      NeverRaises-if (script.1.state == "Error")
        (pure (merge_statuses common script.1, some (new_error "error getting script content")))
        (sync_image E observed finalizing script.0 (merge_statuses common script.1)) (λ h. tt)
        (sync_image-NeverRaises finalizing script.0 (merge_statuses common script.1))

  -- handleSyncRequest reports every failure in its result.
  pub handle_sync_request-NeverRaises : NeverRaises (handle_sync_request E observed)
  unfolding handle_sync_request
  handle_sync_request-NeverRaises =
      NeverRaises-catch
        (add_finalizer E.services.cluster E.services.retry E.services.objects terraforms
          observed.metadata.name observed.metadata.namespace)
        (after_finalizer E observed)
        (λ _. sync_script-NeverRaises (terraform_status "Progressing" "Starting processing"))
        (λ e h. tt)

module _ {V : Type 0} (E : Setup V) (codec : Converter Terraform) (cache : Cache) where
  -- Whatever the API server, the registry and the Argo CD server answer: a key that the
  -- infrastructure controller has processed is handed back to the queue once, at the end, and before
  -- that it is forgotten, or put back, or neither, and never two of these; the worker goes on.
  pub process_next_terraform-settles :
      (k : String) (h h' : History) (goes_on : Bool) (calls : List QueueCall)
      → process_next_terraform E codec cache (key k) h ≡ (returns (ok (goes_on, calls)), h')
      → (goes_on ≡ true)
        × ((calls ≡ forget ∷ done ∷ [])
            ⊎ (calls ≡ add_rate_limited ∷ done ∷ [])
            ⊎ (calls ≡ done ∷ []))
  unfolding process_next_terraform terraform_resource
  process_next_terraform-settles =
      process_next_work_item-settles (terraform_resource E codec) cache
        (handle_sync_request-NeverRaises E)
