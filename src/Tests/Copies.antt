-- ===== src/Tests/Copies.antt =====
-- Examples for the deep copies of the resources.
use alustan.Base.{none, some, refl, arith}
use alustan.Value.{text, null}
use alustan.DeepCopy.{MetaCell, TerraformCell, Memory, deep_copy_terraform_into}
use alustan.DeepCopy.Laws.{Shares, deep_copy_terraform-Shares}
use alustan.Tests.Fixtures.{shop}

abbrev no_meta : MetaCell
no_meta = record {
  name = "shop";
  namespace = "default";
  generation = 1;
  labels = none;
  annotations = none;
  deletion_timestamp = none;
}

-- The variables at address 7.
abbrev shop_cell : TerraformCell
shop_cell = record {
  type_meta = record { kind = "Terraform"; api_version = "alustan.io/v1alpha1" };
  metadata = no_meta;
  environment = "dev";
  variables = some 7;
  scripts = shop.spec.scripts;
  post_deploy_script = "";
  post_deploy_args = none;
  container_registry = shop.spec.container_registry;
  state = "";
  message = "";
  post_deploy_output = none;
  observed_generation = 0;
}

abbrev memory : Memory TerraformCell
memory = record { free = 1; objects = λ a. some shop_cell; contents = λ a. null }

deep_copy_terraform-Shares_example :
    Shares deep_copy_terraform_into shop_cell memory 0 shop_cell (λ c. c.variables) (text "new")
deep_copy_terraform-Shares_example =
    deep_copy_terraform-Shares shop_cell memory 0 shop_cell (λ c. c.variables) (text "new") refl
      (omega arith) refl
