-- ===== src/Tests/Controller.antt =====
-- Examples for the work items and the synchronisations.
use alustan.Base.{some, refl, [], ◌∷◌, true, ok, ◌≡◌, ◌⊎◌, arith}
use alustan.Cluster.{Cluster}
use alustan.Types.{Terraform, terraform_status}
use alustan.Controller.Worker.{
  after_sync, process_resource, process_object, process_next_work_item, key, forget, done,
  add_rate_limited,
}
use alustan.Controller.Worker.Requeued.{IsPutBack, item-IsPutBack}
use alustan.Controller.Infra.{
  sync_script, process_next_terraform, terraform_resource, handle_sync_request,
}
use alustan.Controller.Infra.Laws.{process_next_terraform-settles}
use alustan.Containers.Termination.{PodsEnd}
use alustan.Controller.Worker.Termination.{IsHandedBack}
use alustan.Controller.Infra.Termination.{process_next_terraform-IsHandedBack}
use alustan.Controller.Application.{handle_app_sync_request, process_next_app, app_resource}
use alustan.Controller.Application.Laws.{process_next_app-settles}
use alustan.Controller.Infra.Undestroyed.{sync_script-keeps_finalizer}
use alustan.Terraform.Destroy.Laws.{object_writes}
use alustan.Tests.Fixtures.{calm, contended, one_key, setup_on, surroundings_on, always, shop, web}
use alustan.Value.{end}
use alustan.Kube.Finalizer.{add_finalizer_once, add_finalizer}

-- A server that refuses the finalizer: the key is put back.
process_next_terraform-settles_example :
    (true ≡ true)
    × ((add_rate_limited ∷ done ∷ [] ≡ forget ∷ done ∷ [])
        ⊎ (add_rate_limited ∷ done ∷ [] ≡ add_rate_limited ∷ done ∷ [])
        ⊎ (add_rate_limited ∷ done ∷ [] ≡ done ∷ []))
unfolding process_next_terraform process_next_work_item process_object terraform_resource
    process_resource handle_sync_request add_finalizer add_finalizer_once after_sync
process_next_terraform-settles_example =
    process_next_terraform-settles (setup_on contended) (always shop) one_key "default/shop" []
      (process_next_terraform (setup_on contended) (always shop) one_key (key "default/shop") []).1
      true (add_rate_limited ∷ done ∷ []) refl

process_next_app-settles_example :
    (true ≡ true)
    × ((add_rate_limited ∷ done ∷ [] ≡ forget ∷ done ∷ [])
        ⊎ (add_rate_limited ∷ done ∷ [] ≡ add_rate_limited ∷ done ∷ [])
        ⊎ (add_rate_limited ∷ done ∷ [] ≡ done ∷ []))
unfolding process_next_app process_next_work_item process_object app_resource process_resource
    handle_app_sync_request add_finalizer add_finalizer_once after_sync
process_next_app-settles_example =
    process_next_app-settles (surroundings_on contended) (always web) one_key "default/web" []
      (process_next_app (surroundings_on contended) (always web) one_key (key "default/web") []).1
      true (add_rate_limited ∷ done ∷ []) refl

item-IsPutBack_example :
    IsPutBack
      (terraform_resource (setup_on contended) (always shop))
      one_key
      shop
      []
      (process_next_work_item
        (terraform_resource (setup_on contended) (always shop))
        one_key
        (key "default/shop")
        []).1
unfolding process_next_work_item process_object terraform_resource process_resource
    handle_sync_request add_finalizer add_finalizer_once after_sync
item-IsPutBack_example =
    item-IsPutBack (terraform_resource (setup_on contended) (always shop)) one_key "default/shop"
      shop []
      (process_next_work_item (terraform_resource (setup_on contended) (always shop)) one_key
        (key "default/shop") []).1
      ("default", "shop", end, refl, refl, refl) refl

-- A deleted resource with no destroy script, whose image is known.
abbrev pub deleted_shop : Terraform
deleted_shop = record shop {
  metadata = record shop.metadata { deletion_timestamp = some 7 };
  spec = record shop.spec { scripts = record { deploy = "deploy"; destroy = "" } };
}

abbrev pub released : Cluster
released = record calm {
  config_map = λ h q. ok (record {
    name = "shop-tagged-image";
    namespace = "default";
    content = ("lastTaggedImage", "shop:1.0.0") ∷ [];
  });
}

sync_script-keeps_finalizer_example :
    object_writes
      (sync_script (setup_on released) deleted_shop (terraform_status "Progressing" "") []).1
    ≡ []
sync_script-keeps_finalizer_example =
    sync_script-keeps_finalizer (setup_on released) deleted_shop 7 refl refl
      (terraform_status "Progressing" "") []

-- The pods of `calm` have succeeded.
calm-PodsEnd : PodsEnd calm 3
calm-PodsEnd namespace pod_name h = (0, omega arith, tt)

process_next_terraform-IsHandedBack_example :
    IsHandedBack
      (process_next_terraform (setup_on calm) (always shop) one_key (key "default/shop") []).0
process_next_terraform-IsHandedBack_example =
    process_next_terraform-IsHandedBack (setup_on calm) (always shop) one_key calm-PodsEnd
      (λ namespace name h secret e. absurd (cc e)) "default/shop" []
