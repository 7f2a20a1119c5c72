-- ===== src/Service/ApplicationSet.antt =====
-- `CreateApplicationSet` and `fetchSecretAnnotations`.
pub mod Conditions
pub mod Finished
pub mod Laws
use alustan.Base.{
  ℕ, String, Bool, true, false, Option, none, some, List, [], ◌∷◌, Result, ok, err, Error, errorf,
  new_error, StringMap, lookup, is_not_found, is_internal_error, map_error, ltb, ◌==◌, ◌<>◌,
  if◌then◌else◌,
}
use alustan.Value.{Value, Fields}
use alustan.Cluster.{
  Cluster, ApplicationSet, PullRequestGenerator, Generator, clusters, matrix, by_name, by_server,
  Secret, M, or_exit, call, pure, raise, lift, try, wrap, ◌>>=◌, ◌>>◌, get_secret, list_secrets,
  create_application_set, list_applications,
}
use alustan.Types.{App}
use alustan.Kube.Retry.{Retry}
use alustan.Service.Placeholders.{
  fields_contain_placeholders, replace_workspace_values, convert_raw_extensions_to_interface,
}
use alustan.Service.ImageTag.{update_image_tag}
use alustan.Service.Ingress.{modify_ingress_host}
use alustan.Service.ApplicationSet.Conditions.{choose_conditions}

-- Go's `text/template` at a map of annotations, `json.Unmarshal`, and `yaml.Marshal`.
pub record Rendering : Type 0 where
  pub replace_placeholder : StringMap String → String → Result String
  pub unmarshal : String → Result Value
  pub yaml : Fields → Result String

-- `formatValuesAsHelmString`
abbrev pub format_values_as_helm_string : Rendering → Fields → M String
format_values_as_helm_string T values = or_exit (T.yaml values)

abbrev pub secret_missing : String → String
secret_missing environment =
    "no secret found with label alustan.io/secret-type=cluster and environment=" <> environment

abbrev has_label : String → Option String → Bool
has_label environment none = false
has_label environment (some value) = value == environment

-- The annotations of the first secret with the label of the environment.
unfoldable pub matched_annotations : String → List Secret → Result (StringMap String)
unfolding lookup
matched_annotations environment [] = err (new_error (secret_missing environment))
matched_annotations environment (secret ∷ secrets) =
    if has_label environment (lookup "environment" secret.labels)
    then ok secret.annotations
    else matched_annotations environment secrets

module _ (c : Cluster) where
  -- `fetchSecretAnnotations` at the labels that its only caller gives.
  unfoldable pub fetch_secret_annotations : String → M (StringMap String)
  unfolding matched_annotations
  fetch_secret_annotations environment = do
    secrets ← call c.secrets (list_secrets "alustan" "alustan.io/secret-type" "cluster")
    lift (matched_annotations environment secrets)

module _ (c : Cluster) (T : Rendering) where
  -- `none` is the early `return nil, nil`.
  abbrev pub with_annotations : String → Fields → Result (StringMap String) → M (Option Fields)
  with_annotations environment values (err e) =
      if e.message == secret_missing environment then pure none else raise e
  with_annotations environment values (ok []) = pure none
  with_annotations environment values (ok (a ∷ as_)) = do
    replaced ← lift (replace_workspace_values (T.replace_placeholder (a ∷ as_)) values)
    pure (some replaced)

  unfoldable pub fill_placeholders : String → Fields → M (Option Fields)
  fill_placeholders environment values =
      if fields_contain_placeholders values
      then (do
        r ← try (fetch_secret_annotations c environment)
        with_annotations environment values r)
      else pure (some values)

-- The tag, and for a preview the hosts.
unfoldable pub final_values : Bool → String → Fields → Fields
unfolding update_image_tag modify_ingress_host
final_values preview latest_tag values =
    let tagged = update_image_tag latest_tag values in
    if preview then modify_ingress_host true "{{.branch}}-{{.number}}" tagged else tagged

abbrev pub exists_or_raise : Result Secret → M Bool
exists_or_raise (ok _) = pure true
exists_or_raise (err e) = if is_not_found e then pure false else raise e

-- The generators of the set.
unfoldable pub generators_of : App → String → String → Bool → List Generator
generators_of observed secret_name key secret_exists =
    let preview = observed.spec.preview_environment in
    let selector : StringMap String = ("environment", observed.spec.environment) ∷ [] in
    if preview.enabled
    then matrix
        (record {
          owner = preview.git_owner;
          repo = preview.git_repo;
          labels = "preview" ∷ [];
          token_ref = if secret_exists then some (secret_name, key) else none;
          requeue_after_seconds =
              if ltb 0 preview.interval_seconds then preview.interval_seconds else 600;
        })
        selector
      ∷ []
    else clusters selector ∷ []

-- The set that is sent to Argo CD.
unfoldable pub application_set_of : App → List Generator → String → ApplicationSet
application_set_of observed generators helm_values =
    let preview = observed.spec.preview_environment.enabled in
    record {
      name = observed.metadata.name;
      namespace = "argocd";
      generators = generators;
      template_name = if preview then "preview-{{.branch}}-{{.number}}" else observed.metadata.name;
      template_labels = ("workload", "true") ∷ [];
      destination =
          if preview
          then by_server "https://kubernetes.default.svc" "preview-{{.branch}}-{{.number}}"
          else by_name "{{.name}}" observed.metadata.namespace;
      repo_url = observed.spec.source.repo_url;
      path = observed.spec.source.path;
      target_revision = observed.spec.source.target_revision;
      release_name = observed.spec.source.release_name;
      helm_values = helm_values;
    }

module _ (c : Cluster) (R : Retry) (T : Rendering) (observed : App) where
  -- What follows the values.
  unfoldable pub apply_set : String → String → String → Fields → M (List Value)
  unfolding generators_of application_set_of choose_conditions
  apply_set secret_name key latest_tag values = do
    let preview = observed.spec.preview_environment.enabled
    helm_values ← format_values_as_helm_string T (final_values preview latest_tag values)
    r ← try (call c.secret (get_secret observed.metadata.namespace secret_name))
    secret_exists ← exists_or_raise r
    let generators = generators_of observed secret_name key secret_exists
    R.on_error is_internal_error
        (call c.ack (create_application_set (application_set_of observed generators helm_values)))
    apps ← call c.applications (list_applications "argocd")
    lift (choose_conditions preview observed.metadata.name observed.metadata.namespace apps)

  abbrev pub apply_or_stop : String → String → String → Option Fields → M (List Value)
  apply_or_stop secret_name key latest_tag none = pure []
  apply_or_stop secret_name key latest_tag (some values) =
      apply_set secret_name key latest_tag values

  -- `CreateApplicationSet`
  unfoldable pub create_set : String → String → String → M (List Value)
  create_set secret_name key latest_tag = do
    converted ← lift (
        map_error (errorf "failed to convert values: ")
          (convert_raw_extensions_to_interface T.unmarshal observed.spec.source.values))
    filled ← fill_placeholders c T observed.spec.environment converted
    apply_or_stop secret_name key latest_tag filled
