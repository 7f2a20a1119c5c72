-- ===== src/Controller/Infra/Undestroyed.antt =====
-- A Terraform resource that is deleted and has no destroy script.
use alustan.Base.{◌<>◌, lookup, ℕ, ◌≡◌, refl, some, inl, inr, Result-cases, Option-cases}
use alustan.Cluster.{History, get_config_map}
use alustan.Types.{Terraform, TerraformStatus}
use alustan.Terraform.Run.{get_script_content}
use alustan.Terraform.Destroy.{run_destroy}
use alustan.Terraform.Destroy.Laws.{object_writes}
use alustan.Terraform.Execute.{execute_terraform}
use alustan.Registry.TaggedImage.{get_tagged_image_name, get_tagged_image_name_from_config_map}
use alustan.Controller.Infra.{Setup, sync_script, sync_image, run_terraform}

module _ {V : Type 0} (E : Setup V) (observed : Terraform) (time : ℕ)
    (deleted : observed.metadata.deletion_timestamp ≡ some time)
    (no_script : observed.spec.scripts.destroy ≡ "") where
  -- When the resource has a deletion time and no destroy script, what handleSyncRequest does behind
  -- AddFinalizer writes no object, so the finalizer that AddFinalizer has made sure of stays.
  pub sync_script-keeps_finalizer :
      (common : TerraformStatus) (h : History)
      → object_writes (sync_script E observed common h).1 ≡ object_writes h
  unfolding sync_script sync_image run_terraform get_script_content execute_terraform run_destroy
      get_tagged_image_name get_tagged_image_name_from_config_map lookup
  sync_script-keeps_finalizer common h =
      rw (deleted, no_script)
        (elim (Result-cases (
          E.services.cluster.config_map h (
            get_config_map observed.metadata.namespace
              (observed.metadata.name <> "-tagged-image")))) [
                | inr (e, r) ↦ rw r refl
                | inl (config_map, r) ↦
                    elim (Option-cases (lookup "lastTaggedImage" config_map.content)) [
                      | inl missing ↦ rw (r, missing) refl
                      | inr (image, found) ↦ rw (r, found) refl
                    ]
              ])
