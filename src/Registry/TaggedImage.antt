-- ===== src/Registry/TaggedImage.antt =====
-- pkg/infrastructure/registry/registry.go and pkg/application/registry/registry.go. A step that
-- fails ends the function with the status `ErrorResponse` of the step's name and the error.
pub mod Laws
pub mod Newest
use alustan.Base.{
  String, Bool, Option, none, some, [], ◌∷◌, Result, ok, err, errorf, new_error, is_already_exists,
  StringMap, lookup, ◌<>◌, ◌==◌, if◌then◌else◌,
}
use alustan.Cluster.{
  Cluster, M, call, pure, raise, lift, try, wrap, ◌>>=◌, ◌>>◌, get_config_map, create_config_map,
  update_config_map,
}
use alustan.Types.{
  Terraform, TerraformStatus, terraform_status, App, AppStatus, app_status, ContainerRegistry,
}
use alustan.Containers.DockerSecret.{Decoding, create_docker_config_secret}
use alustan.Registry.Clients.{TagDecoding, RegistryClient, ghcr_client, docker_client, get_tags}
use alustan.Registry.LatestTag.{Semver, get_latest_tag}

-- A failed step: the message of `ErrorResponse`.
abbrev step : {A : Type 0} → String → M A → M A
step action m = wrap (λ e. new_error ("Error " <> action <> ": " <> e.message)) m

-- `getRegistryClient`
unfoldable pub get_registry_client : String → String → Result RegistryClient
get_registry_client provider token =
    if provider == "ghcr"
    then ok (ghcr_client token)
    else if provider == "docker"
    then ok (docker_client token)
    else err (new_error ("unknown container registry provider: " <> provider))

module _ (c : Cluster) (namespace name : String) where
  abbrev pub image_config_map : String
  image_config_map = name <> "-tagged-image"

  abbrev after_create : StringMap String → Result (Unit {0}) → M (Unit {0})
  after_create content (ok _) = pure tt
  after_create content (err e) =
      if is_already_exists e
      then (do
        existing ←
            wrap (errorf "failed to get existing ConfigMap: ")
              (call c.config_map (get_config_map namespace image_config_map))
        wrap (errorf "failed to update existing ConfigMap: ")
            (call c.ack (update_config_map namespace (record existing { content = content }))))
      else raise (errorf "failed to create ConfigMap: " e)

  -- `updateTaggedImageConfigMap`
  unfoldable pub update_tagged_image_config_map : String → M (Unit {0})
  update_tagged_image_config_map tagged_image_name = do
    let content = ("lastTaggedImage", tagged_image_name) ∷ []
    r ← try (
        call c.ack (
          create_config_map namespace
            (record { name = image_config_map; namespace = namespace; content = content })))
    after_create content r

  abbrev image_or_error : Option String → Result String
  image_or_error none = err (new_error "tagged image name not found in ConfigMap")
  image_or_error (some image) = ok image

  -- `getTaggedImageNameFromConfigMap`
  unfoldable pub get_tagged_image_name_from_config_map : M String
  unfolding lookup
  get_tagged_image_name_from_config_map = do
    config_map ←
        wrap (errorf "failed to get ConfigMap: ")
          (call c.config_map (get_config_map namespace image_config_map))
    lift (image_or_error (lookup "lastTaggedImage" config_map.content))

module _ {V : Type 0} (S : Semver V) (D : Decoding) (T : TagDecoding) (getenv : String → String)
    (c : Cluster) where
  -- The steps that both controllers share, up to the tag. `name` and `namespace` are the resource's.
  unfoldable pub find_latest_tag : String → String → ContainerRegistry → M String
  unfolding get_registry_client get_tags
  find_latest_tag namespace name registry = do
    let encoded = getenv "CONTAINER_REGISTRY_SECRET"
    step "creating Docker config secret" (
        if encoded == ""
        then raise {A = Unit {0}} (new_error "CONTAINER_REGISTRY_SECRET is not set")
        else pure tt)
    (_, token) ←
        step "creating Docker config secret"
          (create_docker_config_secret c (name <> "-container-secret") namespace D encoded)
    client ← step "creating registry client" (lift (get_registry_client registry.provider token))
    tags ← step "fetching image tags" (get_tags c T client registry.image_name)
    step "determining latest image tag" (lift (get_latest_tag S tags registry.semantic_version))

  abbrev pub terraform_outcome : Result String → M (String × TerraformStatus)
  terraform_outcome (ok image) = pure (image, terraform_status "" "")
  terraform_outcome (err e) = pure ("", terraform_status "Error" e.message)

  -- `handleContainerRegistry` of the infrastructure controller
  unfoldable pub handle_terraform_registry : Terraform → M String
  unfolding find_latest_tag
  handle_terraform_registry observed = do
    latest_tag ←
        find_latest_tag observed.metadata.namespace observed.metadata.name
          observed.spec.container_registry
    let tagged_image_name = observed.spec.container_registry.image_name <> ":" <> latest_tag
    step "updating image tag in configmap" (
        update_tagged_image_config_map c observed.metadata.namespace observed.metadata.name
          tagged_image_name)
    pure tagged_image_name

  -- `GetTaggedImageName`
  unfoldable pub get_tagged_image_name : Terraform → Bool → M (String × TerraformStatus)
  get_tagged_image_name observed finalizing = do
    r ← try (
        if finalizing
        then step "retrieving tagged image name" (
            get_tagged_image_name_from_config_map c observed.metadata.namespace
              observed.metadata.name)
        else handle_terraform_registry observed)
    terraform_outcome r

  abbrev pub app_outcome : Result String → M (String × AppStatus)
  app_outcome (ok tag) = pure (tag, app_status "" "")
  app_outcome (err e) = pure ("", app_status "Error" e.message)

  -- `HandleContainerRegistry` of the application controller
  unfoldable pub handle_app_registry : App → M (String × AppStatus)
  unfolding find_latest_tag
  handle_app_registry observed = do
    r ← try (
        find_latest_tag observed.metadata.namespace observed.metadata.name
          observed.spec.container_registry)
    app_outcome r
