-- ===== src/Service/Run.antt =====
-- `RunService` and the `convertToRawExtensionMap` of pkg/application/service.
pub mod Laws
use alustan.Base.{
  String, Bool, List, [], ◌∷◌, Option, none, some, Result, ok, err, Error, errorf, StringMap,
  bind_result, ◌==◌, ◌<>◌, if◌then◌else◌,
}
use alustan.Value.{Value, Items, Fields, null, text, arr, obj, nil, cons, field, end}
use alustan.Cluster.{Cluster, M, pure, try, ◌>>=◌}
use alustan.Types.{App, AppStatus, app_status, app_error_response}
use alustan.Kube.Retry.{Retry, Unstructured}
use alustan.Kube.PatSecret.{create_or_update_secret_with_pat}
use alustan.Kube.IngressUrls.{get_all_ingress_urls}
use alustan.Service.Dependencies.{Signal, extract_dependencies, wait_for_all_dependencies}
use alustan.Service.ApplicationSet.{Rendering, create_set}
use alustan.Service.Delete.{delete_set}

-- The items of a slice of addresses.
unfoldable pub url_items : List String → Items
url_items [] = nil
url_items (url ∷ urls) = cons (text url) (url_items urls)

-- A slice that nothing was appended to is nil, which is `null` in JSON.
unfoldable pub urls_value : List String → Value
unfolding url_items
urls_value [] = null
urls_value (url ∷ urls) = arr (url_items (url ∷ urls))

-- `convertToRawExtensionMap` at the slices of addresses, where `marshal` is `json.Marshal`.
unfoldable pub convert_urls :
    (Value → Result String) → StringMap (List String) → Result (StringMap String)
unfolding urls_value
convert_urls marshal [] = ok []
convert_urls marshal ((key, urls) ∷ rest) = bind_result (marshal (urls_value urls)) λ _.
    bind_result (marshal (obj (field "urls" (urls_value urls) end)))
      λ raw. bind_result (convert_urls marshal rest) λ converted. ok ((key, raw) ∷ converted)

-- What `RunService` uses from outside its package.
pub record Environment : Type 1 where
  pub cluster : Cluster
  pub retry : Retry
  pub objects : Unstructured
  pub rendering : Rendering
  pub get_name : Fields → String
  pub base64 : String → Result String
  pub marshal : Value → Result String
  pub getenv : String → String

module _ (E : Environment) (observed : App) where
  abbrev pub answer : AppStatus → Option Error → M (AppStatus × Option Error)
  answer status e = pure (status, e)

  abbrev pub after_urls :
      List Value → Result (StringMap (List String)) → M (AppStatus × Option Error)
  after_urls conditions (err e) =
      answer (app_status "Failed" ("Error retrieving Ingress URLs: " <> e.message)) (some e)
  after_urls conditions (ok urls) = elim (convert_urls E.marshal urls) [
    | err e ↦ answer (app_status "Failed" ("Error converting ingress URLs: " <> e.message)) (some e)
    | ok converted ↦
        answer
          (record {
            state = "Completed";
            message = "Successfully applied";
            health_status = conditions;
            preview_urls = some converted;
            observed_generation = 0;
          })
          none
  ]

  abbrev pub after_set : Result (List Value) → M (AppStatus × Option Error)
  after_set (err e) = answer (app_error_response "Running App" e) (some e)
  after_set (ok conditions) = do r ← try (get_all_ingress_urls E.cluster); after_urls conditions r

  abbrev pub after_wait : String → String → Result (Unit {0}) → M (AppStatus × Option Error)
  after_wait secret_name latest_tag (err e) =
      answer (app_error_response "Waiting for dependencies to become healthy" e) (some e)
  after_wait secret_name latest_tag (ok _) = do
    r ← try (create_set E.cluster E.retry E.rendering observed secret_name "pat" latest_tag)
    after_set r

  abbrev wrapped_delete : AppStatus × Option Error → M (AppStatus × Option Error)
  wrapped_delete (status, some e) =
      answer status (some (errorf "error deleting ApplicationSet: " e))
  wrapped_delete (status, none) = answer status none

  -- What follows the secret.
  unfoldable pub delete_or_apply :
      String → String → Bool → List Signal → M (AppStatus × Option Error)
  unfolding delete_set extract_dependencies create_set convert_urls get_all_ingress_urls
  delete_or_apply secret_name latest_tag finalizing signals =
      if finalizing
      then delete_set E.cluster E.retry E.objects E.get_name observed >>= wrapped_delete
      else do
        r ← try (wait_for_all_dependencies E.cluster (extract_dependencies observed) signals)
        after_wait secret_name latest_tag r

  abbrev pub after_secret :
      String → String → Bool → List Signal → Result (Unit {0}) → M (AppStatus × Option Error)
  after_secret secret_name latest_tag finalizing signals (err e) =
      answer (app_status "" "") (some (errorf "failed to create/update secret: " e))
  after_secret secret_name latest_tag finalizing signals (ok _) =
      delete_or_apply secret_name latest_tag finalizing signals

  -- `RunService`
  unfoldable pub run_service : String → Bool → List Signal → M (AppStatus × Option Error)
  unfolding delete_or_apply create_or_update_secret_with_pat
  run_service latest_tag finalizing signals = do
    let secret_name = observed.metadata.name <> "-container-secret"
    let pat = E.getenv "GITHUB_TOKEN"
    r ← try (
        if pat == ""
        then pure tt
        else create_or_update_secret_with_pat E.cluster "argocd" secret_name "pat" pat E.base64)
    after_secret secret_name latest_tag finalizing signals r
