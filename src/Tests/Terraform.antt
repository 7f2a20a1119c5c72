-- ===== src/Tests/Terraform.antt =====
-- Examples for the destroy and post-deploy runs.
use alustan.Base.{[], ◌∷◌, ◌≡◌, arith}
use alustan.Containers.RunPod.{pod_name_of}
use alustan.Terraform.Run.{RunArgs}
use alustan.Terraform.Destroy.{run_destroy}
use alustan.Terraform.Destroy.Laws.{run_destroy-keeps_finalizer, object_writes, NeverSucceeds}
use alustan.Tests.Fixtures.{endless, one_run, first_field, shop}

abbrev run_args : RunArgs
run_args = record {
  script_content = "destroy";
  tagged_image_name = "shop:1.0.0";
  secret_name = "shop-container-secret";
  env_vars = ("ZONE", "a") ∷ [];
}

endless-NeverSucceeds :
    NeverSucceeds endless shop.metadata.namespace (pod_name_of shop.metadata.name "destroy")
endless-NeverSucceeds = λ h pod e p. ground arith

run_destroy-keeps_finalizer_example :
    object_writes (run_destroy endless one_run first_field shop run_args 3 []).1 ≡ []
run_destroy-keeps_finalizer_example =
    run_destroy-keeps_finalizer endless one_run first_field shop run_args 3 [] endless-NeverSucceeds
