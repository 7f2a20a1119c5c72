-- ===== src/Registry/TaggedImage/Laws.antt =====
-- The tagged image that a deletion reads is the one that the last deployment has stored.
use alustan.Base.{
  new_error, subst, String, Bool, true, false, ◌&&◌, Option, none, some, [], ◌∷◌, Result, ok, ◌≡◌,
  refl, ap, ◌∙◌, ◌==◌, ◌<>◌, Result-cases, Bool-cases, inl, inr, eq_iff, eq_refl, errorf, subst,
  is_already_exists,
}
use alustan.Cluster.{
  pure, Cluster, ConfigMap, History, returns, bind-run, try-run, wrap-run, wrap, call,
  get_config_map, create_config_map, update_config_map,
}
use alustan.Registry.TaggedImage.{
  terraform_outcome, step, find_latest_tag, get_tagged_image_name, handle_terraform_registry,
  update_tagged_image_config_map, get_tagged_image_name_from_config_map,
}
use alustan.Registry.LatestTag.{Semver}
use alustan.Containers.DockerSecret.{Decoding}
use alustan.Registry.Clients.{TagDecoding}
use alustan.Types.{terraform_status, TerraformStatus, Terraform}

-- A write that was acknowledged replaces what was there.
abbrev pub overwrite : Bool → Result (Unit {0}) → ConfigMap → Option ConfigMap → Option ConfigMap
overwrite true (ok _) m old = some m
overwrite _ _ m old = old

module _ (c : Cluster) where
  -- The config map of this name as the writes of the history leave it.
  abbrev pub stored : String → String → History → Option ConfigMap
  stored namespace name [] = none
  stored namespace name (create_config_map at m ∷ h) =
      overwrite (at == namespace && m.name == name) (c.ack h (create_config_map at m)) m
        (stored namespace name h)
  stored namespace name (update_config_map at m ∷ h) =
      overwrite (at == namespace && m.name == name) (c.ack h (update_config_map at m)) m
        (stored namespace name h)
  stored namespace name (_ ∷ h) = stored namespace name h

  -- The API server answers with what was written last, and under the name that was asked for.
  pub record Remembers : Type 0 where
    pub last_written :
        (namespace name : String) (h : History) (m : ConfigMap)
        → stored namespace name h ≡ some m
        → c.config_map h (get_config_map namespace name) ≡ ok m
    pub named :
        (namespace name : String) (h : History) (m : ConfigMap)
        → c.config_map h (get_config_map namespace name) ≡ ok m
        → m.name ≡ name

  -- The config map holds the image.
  abbrev HasImage : String → String → String → History → Type 0
  HasImage namespace name image h =
      (m : ConfigMap) × (stored namespace (name <> "-tagged-image") h ≡ some m)
      × (m.content ≡ ("lastTaggedImage", image) ∷ [])

  stored-create :
      (namespace name : String) (m : ConfigMap) (h : History)
      → m.name ≡ name
      → c.ack h (create_config_map namespace m) ≡ ok tt
      → stored namespace name (create_config_map namespace m ∷ h) ≡ some m
  stored-create namespace name m h e x = rw (eq_refl namespace, (eq_iff m.name name).1 e, x) refl

  stored-update :
      (namespace name : String) (m : ConfigMap) (h : History)
      → m.name ≡ name
      → c.ack h (update_config_map namespace m) ≡ ok tt
      → stored namespace name (update_config_map namespace m ∷ h) ≡ some m
  stored-update namespace name m h e x = rw (eq_refl namespace, (eq_iff m.name name).1 e, x) refl

  -- The write behind a config map that was there.
  written-HasImage :
      (namespace name image : String) (old : ConfigMap) (h h' : History)
      → old.name ≡ name <> "-tagged-image"
      → wrap
          (errorf "failed to update existing ConfigMap: ")
          (call c.ack (
            update_config_map namespace (record old { content = ("lastTaggedImage", image) ∷ [] })))
          h
        ≡ (returns (ok tt), h')
      → HasImage namespace name image h'
  written-HasImage namespace name image old h h' e p =
      let m : ConfigMap = record old { content = ("lastTaggedImage", image) ∷ [] } in
      let q = update_config_map namespace m in
      let ran = wrap-run (errorf "failed to update existing ConfigMap: ") (call c.ack q) h p in
      let same : q ∷ h ≡ h' = ap (λ r. r.1) ran in
      (
        m,
        subst (λ k. stored namespace (name <> "-tagged-image") k ≡ some m) same
            (stored-update namespace (name <> "-tagged-image") m h e (cc ran)),
        refl,
      )

  update-HasImage :
      (namespace name image : String) (h h' : History)
      → Remembers
      → update_tagged_image_config_map c namespace name image h ≡ (returns (ok tt), h')
      → HasImage namespace name image h'
  unfolding update_tagged_image_config_map
  update-HasImage namespace name image h h' v p =
      let key = name <> "-tagged-image" in
      let new : ConfigMap = record {
        name = key;
        namespace = namespace;
        content = ("lastTaggedImage", image) ∷ [];
      } in
      let q = create_config_map namespace new in
      elim (Result-cases (c.ack h q)) [
        | inl (u, x) ↦
            let same : q ∷ h ≡ h' = ap (λ r. r.1) (rw x at p) in
            (
              new,
              subst (λ k. stored namespace key k ≡ some new) same
                  (stored-create namespace key new h refl x),
              refl,
            )
        | inr (e, x) ↦ elim (Bool-cases (is_already_exists e)) [
          | inr other ↦ absurd (cc (rw (x, other) at p))
          | inl there ↦ elim (Result-cases (c.config_map (q ∷ h) (get_config_map namespace key))) [
            | inr (y, z) ↦ absurd (cc (rw (x, there, z) at p))
            | inl (old, z) ↦
                written-HasImage namespace name image old (get_config_map namespace key ∷ q ∷ h) h'
                  (v.named namespace key (q ∷ h) old z) (rw (x, there, z) at p)
          ]
        ]
      ]

  get-HasImage :
      (namespace name image : String) (h : History)
      → Remembers
      → HasImage namespace name image h
      → get_tagged_image_name_from_config_map c namespace name h
        ≡ (returns (ok image), get_config_map namespace (name <> "-tagged-image") ∷ h)
  unfolding get_tagged_image_name_from_config_map
  get-HasImage namespace name image h v (m, there, content) =
      let e = v.last_written namespace (name <> "-tagged-image") h m there in rw (e, content) refl

module _ {V : Type 0} (S : Semver V) (D : Decoding) (T : TagDecoding) (getenv : String → String)
    (c : Cluster) where
  stored-HasImage :
      (observed : Terraform) (image : String) (h h' : History)
      → Remembers c
      → handle_terraform_registry S D T getenv c observed h ≡ (returns (ok image), h')
      → HasImage c observed.metadata.namespace observed.metadata.name image h'
  unfolding handle_terraform_registry
  stored-HasImage observed image h h' v p =
      let namespace = observed.metadata.namespace in
      let name = observed.metadata.name in
      let (tag, h₁, found, rest) =
        bind-run (find_latest_tag S D T getenv c namespace name observed.spec.container_registry) _
          h p in
      let tagged = observed.spec.container_registry.image_name <> ":" <> tag in
      let (u, h₂, written, last) =
        bind-run
          (step "updating image tag in configmap"
            (update_tagged_image_config_map c namespace name tagged))
          (λ _. pure tagged) h₁ rest in
      let same : tagged ≡ image = cc last in
      let here : h₂ ≡ h' = ap (λ r. r.1) last in
      subst (HasImage c namespace name image) here (
        subst (λ i. HasImage c namespace name i h₂) same
          (update-HasImage c namespace name tagged h₁ h₂ v (
            wrap-run
              (λ e. new_error ("Error " <> "updating image tag in configmap" <> ": " <> e.message))
              (update_tagged_image_config_map c namespace name tagged) h₁ written)))

  -- When GetTaggedImageName has found an image for a resource, then for the same resource on its
  -- deletion it finds this image, if the API server answers with what was written last, and nobody
  -- has written this config map since.
  pub get_tagged_image_name-get_tagged_image_name :
      (observed deleted : Terraform) (image : String) (status : TerraformStatus)
      (h h' h'' : History)
      → Remembers c
      → get_tagged_image_name S D T getenv c observed false h ≡ (returns (ok (image, status)), h')
      → (status.state == "Error") ≡ false
      → deleted.metadata.name ≡ observed.metadata.name
      → deleted.metadata.namespace ≡ observed.metadata.namespace
      → stored c observed.metadata.namespace (observed.metadata.name <> "-tagged-image") h''
        ≡ stored c observed.metadata.namespace (observed.metadata.name <> "-tagged-image") h'
      → (get_tagged_image_name S D T getenv c deleted true h'').0
        ≡ returns (ok (image, terraform_status "" ""))
  unfolding get_tagged_image_name
  get_tagged_image_name-get_tagged_image_name observed deleted image status h h' h'' v p good
        same_name same_namespace kept =
      let (image', h₁, ran, outcome) =
        try-run (handle_terraform_registry S D T getenv c observed)
          (terraform_outcome S D T getenv c) h (λ e h₁ q. cc (q, good)) p in
      let (m, there, content) = stored-HasImage observed image' h h₁ v ran in
      let key = observed.metadata.name <> "-tagged-image" in
      let here : h₁ ≡ h' = ap (λ r. r.1) outcome in
      let there' : stored c observed.metadata.namespace key h'' ≡ some m =
        kept ∙ subst (λ k. stored c observed.metadata.namespace key k ≡ some m) here there in
      let got =
        get-HasImage c observed.metadata.namespace observed.metadata.name image' h'' v
          (m, there', content) in
      let equal : image' ≡ image = cc outcome in rw (same_name, same_namespace, got, equal) refl
