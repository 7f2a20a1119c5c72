-- ===== src/Registry/TaggedImage/Newest.antt =====
-- Where the tag that the registry lookup returns comes from.
use alustan.Base.{
  if◌then◌else◌, subst, new_error, String, Bool, false, List, Result, ok, err, Error, All, Any,
  some, ◌≡◌, ◌≢◌, ◌∙◌, ◌==◌, ◌<>◌,
}
use alustan.Cluster.{Cluster, M, History, returns, lift, raise, pure, bind-run, try-run, wrap-run}
use alustan.Containers.DockerSecret.{Decoding, create_docker_config_secret}
use alustan.Registry.Clients.{TagDecoding, RegistryClient, get_tags}
use alustan.Registry.LatestTag.{Semver, candidate, get_latest_tag}
use alustan.Registry.LatestTag.Laws.{NotAbove, get_latest_tag-newest}
use alustan.Registry.TaggedImage.{
  app_outcome, terraform_outcome, get_tagged_image_name, handle_terraform_registry,
  update_tagged_image_config_map, step, find_latest_tag, get_registry_client, handle_app_registry,
}
use alustan.Types.{App, AppStatus, ContainerRegistry, Terraform, TerraformStatus, terraform_status}

-- A step that returns has done so from the history that it found.
step-run :
    {A : Type 0} (action : String) (m : M A) (h : History) {a : A} {h' : History}
    → step action m h ≡ (returns (ok a), h')
    → m h ≡ (returns (ok a), h')
step-run action = wrap-run (λ e. new_error ("Error " <> action <> ": " <> e.message))

step-lift :
    {A : Type 0} (action : String) (r : Result A) (h : History) {a : A} {h' : History}
    → step action (lift r) h ≡ (returns (ok a), h')
    → r ≡ ok a
step-lift action r h p = cc (step-run action (lift r) h p)

module _ {V : Type 0} (S : Semver V) (D : Decoding) (T : TagDecoding) (getenv : String → String)
    (c : Cluster) where
  -- The tag is the text of the version of one of these tags, which meets the constraint, and none
  -- of them that meets it has a greater version.
  abbrev pub IsNewestOf : List String → String → String → Type 0
  IsNewestOf tags semantic_version tag =
      (check : V → Bool) × (v : V) × (S.new_constraint semantic_version ≡ ok check)
      × (tag ≡ S.version_text v)
      × Any (λ t. candidate S check t ≡ some v) tags
      × All (λ t. NotAbove S v (candidate S check t)) tags

  -- The client of the provider listed the tags of the image, and the tag is the text of the newest
  -- version among them that meets the constraint; this text need not be listed itself.
  abbrev pub IsListed : ContainerRegistry → String → Type 0
  IsListed registry tag =
      (token : String) × (client : RegistryClient) × (tags : List String) × (h h' : History)
      × (get_registry_client registry.provider token ≡ ok client)
      × (get_tags c T client registry.image_name h ≡ (returns (ok tags), h'))
      × IsNewestOf tags registry.semantic_version tag

  find_latest_tag-IsListed :
      (namespace name : String) (registry : ContainerRegistry) (tag : String) (h h' : History)
      → find_latest_tag S D T getenv c namespace name registry h ≡ (returns (ok tag), h')
      → IsListed registry tag
  unfolding find_latest_tag
  find_latest_tag-IsListed namespace name registry tag h h' p =
      let encoded = getenv "CONTAINER_REGISTRY_SECRET" in
      let (_, h₁, _, p₁) =
        bind-run
          (step "creating Docker config secret" (
            if encoded == ""
            then raise {A = Unit {0}} (new_error "CONTAINER_REGISTRY_SECRET is not set")
            else pure tt))
          _ h p in
      let ((_, token), h₂, _, p₂) =
        bind-run
          (step "creating Docker config secret"
            (create_docker_config_secret c (name <> "-container-secret") namespace D encoded))
          _ h₁ p₁ in
      let (client, h₃, made, p₃) =
        bind-run
          (step "creating registry client" (lift (get_registry_client registry.provider token))) _
          h₂ p₂ in
      let (tags, h₄, listed, p₄) =
        bind-run (step "fetching image tags" (get_tags c T client registry.image_name)) _ h₃ p₃ in
      (
        token,
        client,
        tags,
        h₃,
        h₄,
        step-lift "creating registry client" (get_registry_client registry.provider token) h₂ made,
        step-run "fetching image tags" (get_tags c T client registry.image_name) h₃ listed,
        get_latest_tag-newest S tags registry.semantic_version tag (
            step-lift "determining latest image tag"
              (get_latest_tag S tags registry.semantic_version) h₄ p₄),
      )

  failed_outcome :
      (e : Error) (tag : String) (status : AppStatus) (h h' : History)
      → (status.state == "Error") ≡ false
      → app_outcome S D T getenv c (err e) h ≢ (returns (ok (tag, status)), h')
  failed_outcome e tag status h h' good q = cc (q, good)

  -- A lookup of the application controller without the state "Error" has found its tag this way.
  pub handle_app_registry-IsListed :
      (observed : App) (tag : String) (status : AppStatus) (h h' : History)
      → handle_app_registry S D T getenv c observed h ≡ (returns (ok (tag, status)), h')
      → (status.state == "Error") ≡ false
      → IsListed observed.spec.container_registry tag
  unfolding handle_app_registry
  handle_app_registry-IsListed observed tag status h h' p good =
      let namespace = observed.metadata.namespace in
      let name = observed.metadata.name in
      let registry = observed.spec.container_registry in
      let (tag', h₁, found, last) =
        try-run (find_latest_tag S D T getenv c namespace name registry)
          (app_outcome S D T getenv c) h (λ e h₁. failed_outcome e tag status h₁ h' good) p in
      let listed = find_latest_tag-IsListed namespace name registry tag' h h₁ found in
      subst (IsListed registry) (cc last) listed

  failed_image :
      (e : Error) (image : String) (status : TerraformStatus) (h h' : History)
      → (status.state == "Error") ≡ false
      → terraform_outcome S D T getenv c (err e) h ≢ (returns (ok (image, status)), h')
  failed_image e image status h h' good q = cc (q, good)

  -- The image of a deployment is that of the resource with such a tag.
  pub get_tagged_image_name-IsListed :
      (observed : Terraform) (image : String) (status : TerraformStatus) (h h' : History)
      → get_tagged_image_name S D T getenv c observed false h ≡ (returns (ok (image, status)), h')
      → (status.state == "Error") ≡ false
      → (tag : String) × IsListed observed.spec.container_registry tag
        × (observed.spec.container_registry.image_name <> ":" <> tag ≡ image)
        × (terraform_status "" "" ≡ status)
  unfolding get_tagged_image_name handle_terraform_registry
  get_tagged_image_name-IsListed observed image status h h' p good =
      let namespace = observed.metadata.namespace in
      let name = observed.metadata.name in
      let registry = observed.spec.container_registry in
      let (image', h₁, ran, outcome) =
        try-run (handle_terraform_registry S D T getenv c observed)
          (terraform_outcome S D T getenv c) h (λ e h₁. failed_image e image status h₁ h' good) p in
      let (tag, h₂, found, rest) =
        bind-run (find_latest_tag S D T getenv c namespace name registry) _ h ran in
      let tagged = registry.image_name <> ":" <> tag in
      let (u, h₃, _, last) =
        bind-run
          (step "updating image tag in configmap"
            (update_tagged_image_config_map c namespace name tagged))
          (λ _. pure tagged) h₂ rest in
      let same : tagged ≡ image' = cc last in
      (
        tag,
        find_latest_tag-IsListed namespace name registry tag h h₂ found,
        same ∙ cc outcome,
        cc outcome,
      )
