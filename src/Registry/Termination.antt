-- ===== src/Registry/Termination.antt =====
-- About the steps to the tagged image, which come to an end.
use alustan.Base.{◌<>◌, String, Bool, true, false, arith}
use alustan.Cluster.{Cluster, Returns, Returns-bind}
use alustan.Types.{Terraform, App, ContainerRegistry}
use alustan.Containers.DockerSecret.{Decoding}
use alustan.Containers.Termination.{SecretsHaveData, create_docker_config_secret-Returns}
use alustan.Registry.Clients.{TagDecoding, get_tags}
use alustan.Registry.LatestTag.{Semver}
use alustan.Registry.TaggedImage.{
  find_latest_tag, handle_terraform_registry, get_tagged_image_name, handle_app_registry,
  update_tagged_image_config_map, get_tagged_image_name_from_config_map,
}

module _ {V : Type 0} (S : Semver V) (D : Decoding) (T : TagDecoding) (getenv : String → String)
    (c : Cluster) (filled : SecretsHaveData c) where
  update_tagged_image_config_map-Returns :
      (namespace name image : String)
      → Returns (update_tagged_image_config_map c namespace name image)
  unfolding update_tagged_image_config_map
  update_tagged_image_config_map-Returns namespace name image h = ground arith

  find_latest_tag-Returns :
      (namespace name : String) (registry : ContainerRegistry)
      → Returns (find_latest_tag S D T getenv c namespace name registry)
  unfolding find_latest_tag get_tags
  find_latest_tag-Returns namespace name registry h = ground (
    arith,
    create_docker_config_secret-Returns c filled (name <> "-container-secret") namespace D
        (getenv "CONTAINER_REGISTRY_SECRET") h,
  )

  handle_terraform_registry-Returns :
      (observed : Terraform) → Returns (handle_terraform_registry S D T getenv c observed)
  unfolding handle_terraform_registry
  handle_terraform_registry-Returns observed =
      Returns-bind
        (find_latest_tag S D T getenv c observed.metadata.namespace observed.metadata.name
          observed.spec.container_registry)
        _
        (find_latest_tag-Returns observed.metadata.namespace observed.metadata.name
          observed.spec.container_registry)
        λ tag h. ground (
          arith,
          update_tagged_image_config_map-Returns observed.metadata.namespace observed.metadata.name
              (observed.spec.container_registry.image_name <> ":" <> tag) h,
        )

  pub get_tagged_image_name-Returns :
      (observed : Terraform) (finalizing : Bool)
      → Returns (get_tagged_image_name S D T getenv c observed finalizing)
  unfolding get_tagged_image_name get_tagged_image_name_from_config_map
  get_tagged_image_name-Returns observed true h = ground arith
  get_tagged_image_name-Returns observed false h =
      ground (arith, handle_terraform_registry-Returns observed h)

  pub handle_app_registry-Returns :
      (observed : App) → Returns (handle_app_registry S D T getenv c observed)
  unfolding handle_app_registry
  handle_app_registry-Returns observed h = ground (
    arith,
    find_latest_tag-Returns observed.metadata.namespace observed.metadata.name
        observed.spec.container_registry h,
  )
