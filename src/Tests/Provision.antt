-- ===== src/Tests/Provision.antt =====
-- Examples for synchronisations of a Terraform resource whose script succeeds or fails.
use alustan.Base.{ℕ, false, none, [], ◌∷◌, ok, ◌≡◌, arith}
use alustan.Cluster.{Cluster, History, failed, returns}
use alustan.Types.{Terraform, TerraformStatus, terraform_status}
use alustan.Containers.Termination.{PodsEnd}
use alustan.Controller.Infra.{Setup, handle_sync_request, run_terraform}
use alustan.Controller.Infra.Failed.{run_terraform-failed}
use alustan.Tests.Fixtures.{calm, pod_in, setup_on, plain_tags, shop}

-- A resource without a post-deploy script.
abbrev plain_shop : Terraform
plain_shop = record shop {
  spec = record shop.spec { post_deploy = record { script = ""; args = [] } };
}

abbrev published_on : Cluster → Setup ℕ
published_on c = record (setup_on c) {
  tag_decoding = record plain_tags { ghcr_tags = λ s. ok ("1.1.0" ∷ "2.0.0" ∷ []) };
  getenv = λ name. "secret";
}

abbrev completed : TerraformStatus
completed = terraform_status "Completed" "Infrastructure successfuly provisioned"

abbrev after_completion : History
after_completion = (handle_sync_request (published_on calm) plain_shop []).1

-- A server whose pods fail.
abbrev failing : Cluster
failing = record calm { pod = λ h q. ok (pod_in failed) }

failing-PodsEnd : PodsEnd failing 3
failing-PodsEnd namespace pod_name h = (0, omega arith, tt)

run_terraform-failed_example :
    (status : TerraformStatus) × ((run_terraform
        (published_on failing)
        plain_shop
        false
        "deploy -a"
        (terraform_status "Progressing" "Starting processing")
        "shop:1.1.0"
        []).0
      ≡ returns (ok (status, none)))
    × (status.state ≡ "Failed")
run_terraform-failed_example =
    run_terraform-failed (published_on failing) plain_shop "shop:1.1.0"
      (terraform_status "Progressing" "Starting processing") [] failing-PodsEnd
      (λ h pod e p. ground arith)
