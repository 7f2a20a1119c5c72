-- ===== src/Controller/Application/Laws.antt =====
-- The synchronisation of an App resource.
use alustan.Base.{
  if◌then◌else◌, ◌<>◌, is_some, String, ◌≡◌, refl, arith, eq_iff, ◌==◌, Bool, true, false, List, [],
  ◌∷◌, ◌⊎◌, ok,
}
use alustan.Cluster.{
  pure, apps, History, NeverRaises, NeverRaises-bind, NeverRaises-catch, NeverRaises-if, returns,
}
use alustan.Types.{App, AppStatus, app_status}
use alustan.Kube.Retry.{Converter}
use alustan.Kube.Finalizer.{add_finalizer}
use alustan.Registry.TaggedImage.{handle_app_registry}
use alustan.Service.Delete.{delete_set}
use alustan.Service.Run.{run_service, delete_or_apply, after_secret}
use alustan.Controller.Application.{
  after_app_finalizer, after_registry, merge_app_statuses, Surroundings, sync_service, sync_tag,
  handle_app_sync_request, app_resource, process_next_app,
}
use alustan.Controller.Worker.{key, QueueCall, Cache, forget, add_rate_limited, done}
use alustan.Controller.Worker.Laws.{process_next_work_item-settles}
use alustan.Kube.PatSecret.{create_or_update_secret_with_pat}

-- Merging is associative, a status with all zero fields changes nothing, and the observed
-- generation of the base is kept.
pub merge_app_statuses_lem :
    (a b c : AppStatus)
    → (merge_app_statuses (merge_app_statuses a b) c
        ≡ merge_app_statuses a (merge_app_statuses b c))
      × (merge_app_statuses a (app_status "" "") ≡ a)
      × ((merge_app_statuses a b).observed_generation ≡ a.observed_generation)
unfolding merge_app_statuses
merge_app_statuses_lem a b c = (
  ground (arith, eq_iff b.state "", eq_iff c.state "", eq_iff b.message "", eq_iff c.message ""),
  ground arith,
  refl,
)

module _ {V : Type 0} (E : Surroundings V) (observed : App) where
  delete_set-NeverRaises : NeverRaises (
      delete_set E.environment.cluster E.environment.retry E.environment.objects
        E.environment.get_name observed)
  unfolding delete_set
  delete_set-NeverRaises h = ground arith

  delete_or_apply-NeverRaises :
      (secret_name latest_tag : String) (finalizing : Bool)
      → NeverRaises
          (delete_or_apply E.environment observed secret_name latest_tag finalizing E.signals)
  unfolding delete_or_apply
  delete_or_apply-NeverRaises secret_name latest_tag true h =
      ground (arith, delete_set-NeverRaises h)
  delete_or_apply-NeverRaises secret_name latest_tag false h = ground arith

  run_service-NeverRaises :
      (latest_tag : String) (finalizing : Bool)
      → NeverRaises (run_service E.environment observed latest_tag finalizing E.signals)
  unfolding run_service
  run_service-NeverRaises latest_tag finalizing =
      let secret_name = observed.metadata.name <> "-container-secret" in
      let pat = E.environment.getenv "GITHUB_TOKEN" in
      NeverRaises-catch
        (if pat == ""
          then pure tt
          else create_or_update_secret_with_pat E.environment.cluster "argocd" secret_name "pat" pat
              E.environment.base64)
        (after_secret E.environment observed secret_name latest_tag finalizing E.signals)
        (λ _. delete_or_apply-NeverRaises secret_name latest_tag finalizing) (λ e h. tt)

  sync_service-NeverRaises :
      (common : AppStatus) (latest_tag : String)
      → NeverRaises (sync_service E observed common latest_tag)
  unfolding sync_service
  sync_service-NeverRaises common latest_tag h =
      ground
        (arith, run_service-NeverRaises latest_tag (is_some observed.metadata.deletion_timestamp) h)

  handle_app_registry-NeverRaises : NeverRaises (
      handle_app_registry E.semver E.decoding E.tag_decoding E.environment.getenv
        E.environment.cluster observed)
  unfolding handle_app_registry
  handle_app_registry-NeverRaises h = ground arith

  sync_tag-NeverRaises : (common : AppStatus) → NeverRaises (sync_tag E observed common)
  unfolding sync_tag
  sync_tag-NeverRaises common =
      NeverRaises-if observed.spec.preview_environment.enabled _ _
        (sync_service-NeverRaises common "{{.branch}}-{{.number}}")
        (NeverRaises-bind
          (handle_app_registry E.semver E.decoding E.tag_decoding E.environment.getenv
            E.environment.cluster observed)
          (after_registry E observed common) handle_app_registry-NeverRaises
          (λ r.
            NeverRaises-if (r.1.state == "Error") _ _ (λ h. tt)
              (sync_service-NeverRaises (merge_app_statuses common r.1) r.0)))

  -- handleSyncRequest reports every failure in its result.
  pub handle_app_sync_request-NeverRaises : NeverRaises (handle_app_sync_request E observed)
  unfolding handle_app_sync_request
  handle_app_sync_request-NeverRaises =
      NeverRaises-catch
        (add_finalizer E.environment.cluster E.environment.retry E.environment.objects apps
          observed.metadata.name observed.metadata.namespace)
        (after_app_finalizer E observed)
        (λ _. sync_tag-NeverRaises (app_status "Progressing" "Starting processing")) (λ e h. tt)

module _ {V : Type 0} (E : Surroundings V) (codec : Converter App) (cache : Cache) where
  -- Whatever the API server, the registry and the Argo CD server answer: a key that the
  -- application controller has processed is handed back to the queue once, at the end, and before
  -- that it is forgotten, or put back, or neither, and never two of these; the worker goes on.
  pub process_next_app-settles :
      (k : String) (h h' : History) (goes_on : Bool) (calls : List QueueCall)
      → process_next_app E codec cache (key k) h ≡ (returns (ok (goes_on, calls)), h')
      → (goes_on ≡ true)
        × ((calls ≡ forget ∷ done ∷ [])
            ⊎ (calls ≡ add_rate_limited ∷ done ∷ [])
            ⊎ (calls ≡ done ∷ []))
  unfolding process_next_app app_resource
  process_next_app-settles =
      process_next_work_item-settles (app_resource E codec) cache
        (handle_app_sync_request-NeverRaises E)
