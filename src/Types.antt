-- ===== src/Types.antt =====
-- api/infrastructure/v1alpha1/types.go and api/app/v1alpha1/types.go, and the errorstatus packages.
-- A `runtime.RawExtension` is kept as its JSON text, and a nil map as `none`.
use alustan.Base.{ℕ, String, Bool, Option, none, List, [], StringMap, ◌<>◌, Error}
use alustan.Value.{Value}

-- The fields of `metav1.ObjectMeta` that the program reads.
pub record ObjectMeta : Type 0 where
  pub name : String
  pub namespace : String
  pub generation : ℕ
  pub deletion_timestamp : Option ℕ

pub record ContainerRegistry : Type 0 where
  pub provider : String
  pub image_name : String
  pub semantic_version : String

pub record Scripts : Type 0 where
  pub deploy : String
  pub destroy : String

pub record PostDeploy : Type 0 where
  pub script : String
  pub args : StringMap String

pub record TerraformSpec : Type 0 where
  pub environment : String
  pub variables : Option (StringMap String)
  pub scripts : Scripts
  pub post_deploy : PostDeploy
  pub container_registry : ContainerRegistry

pub record TerraformStatus : Type 0 where
  pub state : String
  pub message : String
  pub post_deploy_output : Option (StringMap String)
  pub observed_generation : ℕ

pub record Terraform : Type 0 where
  pub metadata : ObjectMeta
  pub spec : TerraformSpec
  pub status : TerraformStatus

pub record PreviewEnvironment : Type 0 where
  pub enabled : Bool
  pub git_owner : String
  pub git_repo : String
  pub interval_seconds : ℕ

pub record SourceSpec : Type 0 where
  pub repo_url : String
  pub path : String
  pub release_name : String
  pub target_revision : String
  pub values : StringMap String

pub record AppSpec : Type 0 where
  pub environment : String
  pub preview_environment : PreviewEnvironment
  pub source : SourceSpec
  pub container_registry : ContainerRegistry
  pub dependencies : Option (List (StringMap String))

pub record AppStatus : Type 0 where
  pub state : String
  pub message : String
  pub health_status : List Value
  pub preview_urls : Option (StringMap String)
  pub observed_generation : ℕ

pub record App : Type 0 where
  pub metadata : ObjectMeta
  pub spec : AppSpec
  pub status : AppStatus

-- A status literal with the zero value in the fields that it does not name.
abbrev pub terraform_status : String → String → TerraformStatus
terraform_status state message = record {
  state = state;
  message = message;
  post_deploy_output = none;
  observed_generation = 0;
}

abbrev pub app_status : String → String → AppStatus
app_status state message = record {
  state = state;
  message = message;
  health_status = [];
  preview_urls = none;
  observed_generation = 0;
}

-- `ErrorResponse` of pkg/infrastructure/errorstatus and of pkg/application/errorstatus.
abbrev pub terraform_error_response : String → Error → TerraformStatus
terraform_error_response action e =
    terraform_status "Error" ("Error " <> action <> ": " <> e.message)

abbrev pub app_error_response : String → Error → AppStatus
app_error_response action e = app_status "Error" ("Error " <> action <> ": " <> e.message)
