-- ===== src/Tests/Images.antt =====
-- Examples for the tagged image that a deployment stores and a deletion reads.
use alustan.Base.{
  ap, ◌∙◌, inl, inr, Bool-cases, ◌&&◌, ◌==◌, Option, String, true, false, none, some, [], ◌∷◌,
  Result, ok, refl, ◌≡◌, arith, eq_iff,
}
use alustan.Cluster.{
  list_namespaces, update_config_map, create_config_map, Cluster, ConfigMap, History, Request,
  get_config_map, returns,
}
use alustan.Types.{Terraform, terraform_status}
use alustan.Containers.DockerSecret.{create_docker_config_secret}
use alustan.Registry.LatestTag.{get_latest_tag, latest_version}
use alustan.Registry.TaggedImage.{
  handle_terraform_registry, update_tagged_image_config_map, get_tagged_image_name,
}
use alustan.Registry.TaggedImage.Laws.{
  stored, Remembers, overwrite, get_tagged_image_name-get_tagged_image_name,
}
use alustan.Tests.Fixtures.{
  absent, calm, shop, shop_metadata, three_versions, plain_decoding, plain_tags,
}
use alustan.Registry.Clients.{TagDecoding}

abbrev answer_of : Option ConfigMap → Result ConfigMap
answer_of none = absent
answer_of (some m) = ok m

-- A server whose config maps are those written.
abbrev stored_map : History → Request → Result ConfigMap
stored_map h (get_config_map namespace name) = answer_of (stored calm namespace name h)
stored_map h _ = absent

abbrev remembering : Cluster
remembering = record calm { config_map = stored_map }

overwrite-name :
    (at namespace name : String) (r : Result (Unit {0})) (n m : ConfigMap) (old : Option ConfigMap)
    → (old ≡ some m → m.name ≡ name)
    → overwrite (at == namespace && n.name == name) r n old ≡ some m
    → m.name ≡ name
overwrite-name at namespace name r n m old k p =
    elim (Bool-cases (at == namespace && n.name == name)) [
      | inr other ↦ k (rw other at p)
      | inl here ↦ ground (arith, eq_iff n.name name, k)
    ]

stored-name :
    (namespace name : String) (h : History) (m : ConfigMap)
    → stored remembering namespace name h ≡ some m
    → m.name ≡ name
stored-name namespace name [] m p = cc p
stored-name namespace name (create_config_map at n ∷ h) m p =
    overwrite-name at namespace name (ok tt) n m (stored remembering namespace name h)
      (stored-name namespace name h m) p
stored-name namespace name (update_config_map at n ∷ h) m p =
    overwrite-name at namespace name (ok tt) n m (stored remembering namespace name h)
      (stored-name namespace name h m) p
stored-name namespace name (_ ∷ h) m p = stored-name namespace name h m p

remembering-Remembers : Remembers remembering
remembering-Remembers = record {
  last_written = λ namespace name h m e. ap answer_of e;
  named = λ namespace name h m e.
      answered namespace name h m (stored remembering namespace name h) refl e;
}
  where
    answered :
        (namespace name : String) (h : History) (m : ConfigMap) (old : Option ConfigMap)
        → stored remembering namespace name h ≡ old
        → answer_of old ≡ ok m
        → m.name ≡ name
    answered namespace name h m none e q = cc q
    answered namespace name h m (some n) e q = stored-name namespace name h m (e ∙ cc q)

abbrev tags : TagDecoding
tags = record plain_tags { ghcr_tags = λ s. ok ("1.1.0" ∷ "2.0.0" ∷ []) }

abbrev after_deployment : History
after_deployment =
    (get_tagged_image_name three_versions plain_decoding tags (λ name. "secret") remembering shop
      false []).1

abbrev deleted_shop : Terraform
deleted_shop = record shop { metadata = record shop_metadata { deletion_timestamp = some 9 } }

-- The deletion of the shop, one request later.
get_tagged_image_name-get_tagged_image_name_example :
    (get_tagged_image_name three_versions plain_decoding tags
      (λ name. "secret")
      remembering
      deleted_shop
      true
      (list_namespaces ∷ after_deployment)).0
    ≡ returns (ok ("shop:1.1.0", terraform_status "" ""))
unfolding get_tagged_image_name handle_terraform_registry create_docker_config_secret get_latest_tag
    latest_version update_tagged_image_config_map
get_tagged_image_name-get_tagged_image_name_example =
    get_tagged_image_name-get_tagged_image_name three_versions plain_decoding tags
      (λ name. "secret") remembering shop deleted_shop "shop:1.1.0" (terraform_status "" "") []
      after_deployment (list_namespaces ∷ after_deployment) remembering-Remembers refl refl refl
      refl refl
