-- ===== src/Tests/Converged.antt =====
-- Examples for work items that end well.
use alustan.Base.{none, [], ok, ◌≡◌, refl, arith}
use alustan.Cluster.{History, returns}
use alustan.Types.{TerraformStatus}
use alustan.Controller.Worker.{key, process_resource, forgotten, process_next_work_item}
use alustan.Controller.Infra.{terraform_resource, handle_sync_request, process_next_terraform}
use alustan.Controller.Infra.Converged.{observed_with, IsRecorded, process_next_terraform-converges}
use alustan.Controller.Worker.{process_object, after_sync}
use alustan.Kube.Finalizer.{add_finalizer, add_finalizer_once}
use alustan.Kube.Status.{update_terraform_status, update_status_once}
use alustan.Controller.Infra.{sync_script, sync_image, run_terraform, merge_statuses}
use alustan.Terraform.Run.{get_script_content}
use alustan.Terraform.Execute.{execute_terraform}
use alustan.Terraform.Destroy.{run_destroy}
use alustan.Registry.TaggedImage.{get_tagged_image_name, get_tagged_image_name_from_config_map}
use alustan.Tests.Fixtures.{setup_on, always, one_key}
use alustan.Tests.Controller.{deleted_shop, released}
use alustan.Value.{end}

abbrev after_item : History
after_item =
    (process_next_terraform (setup_on released) (always deleted_shop) one_key (key "default/shop")
      []).1

process_next_terraform-converges_example :
    (status : TerraformStatus) × (h₁ : History) × (handle_sync_request
        (setup_on released)
        deleted_shop
        []
      ≡ (returns (ok (status, none)), h₁))
    × IsRecorded (setup_on released) (always deleted_shop) one_key deleted_shop status after_item
    × (process_resource
          (terraform_resource (setup_on released) (always deleted_shop))
          one_key
          "default/shop"
          (observed_with (setup_on released) (always deleted_shop) one_key deleted_shop status)
          []
        ≡ (returns (ok (forgotten none)), []))
unfolding process_next_terraform terraform_resource process_next_work_item process_object
    process_resource handle_sync_request add_finalizer add_finalizer_once sync_script
    get_script_content sync_image get_tagged_image_name get_tagged_image_name_from_config_map
    run_terraform execute_terraform run_destroy after_sync merge_statuses update_terraform_status
    update_status_once
process_next_terraform-converges_example =
    process_next_terraform-converges (setup_on released) (always deleted_shop) one_key
      "default/shop" deleted_shop [] after_item [] ("default", "shop", end, refl, refl, refl)
      (omega arith) refl
