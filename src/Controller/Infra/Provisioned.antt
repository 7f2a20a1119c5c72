-- ===== src/Controller/Infra/Provisioned.antt =====
-- What it means that handleSyncRequest of the infrastructure controller reports completion.
use alustan.Base.{String, ◌<>◌}
use alustan.Cluster.{History}
use alustan.Types.{Terraform, TerraformStatus}
use alustan.Util.{extract_env_vars}
use alustan.Registry.TaggedImage.Newest.{IsListed}
use alustan.Terraform.Run.{RunArgs}
use alustan.Terraform.Execute.Laws.{IsDone, IsRegistered, IsPostDeployed}
use alustan.Controller.Infra.{Setup, entries}

module _ {V : Type 0} (E : Setup V) (observed : Terraform) where
  -- What a deployment is run with, for an image.
  abbrev pub deploy_args : String → RunArgs
  deploy_args image = record {
    script_content = observed.spec.scripts.deploy;
    tagged_image_name = image;
    secret_name = observed.metadata.name <> "-container-secret";
    env_vars = entries (extract_env_vars observed.spec.variables);
  }

  -- The deploy script has succeeded with this image, Argo CD has a cluster for the environment, and
  -- the post-deploy script, if there is one, has returned the output of the status.
  abbrev pub HasRun : String → TerraformStatus → Type 0
  HasRun image status =
      let args = deploy_args image in
      (h : History) × IsDone E.services.cluster E.services.retry observed args "deploy" E.fuel h
      × IsRegistered E.services observed args
      × IsPostDeployed E.services observed args E.fuel status

  abbrev pub IsProvisioned : TerraformStatus → Type 0
  IsProvisioned status =
      let registry = observed.spec.container_registry in
      (tag : String) × IsListed E.semver E.decoding E.tag_decoding E.getenv E.services.cluster
        registry tag
      × HasRun (registry.image_name <> ":" <> tag) status
