-- ===== src/Controller/Application/Termination.antt =====
-- About the work items of the application controller when the wait has its timeout.
use alustan.Base.{is_some, ◌==◌, String, arith}
use alustan.Cluster.{apps, Returns, Returns-bind, Returns-if, Returns-catch, History}
use alustan.Types.{App, AppStatus, app_status}
use alustan.Kube.Retry.{Converter}
use alustan.Kube.Finalizer.{add_finalizer}
use alustan.Kube.Termination.{add_finalizer-Returns, update_app_status-Returns}
use alustan.Registry.TaggedImage.{handle_app_registry}
use alustan.Registry.Termination.{handle_app_registry-Returns}
use alustan.Service.Run.{run_service}
use alustan.Containers.Termination.{SecretsHaveData}
use alustan.Service.Termination.{TimesOut, IsPrinting, run_service-Returns}
use alustan.Controller.Worker.{Cache, key}
use alustan.Controller.Worker.Termination.{IsHandedBack, process_next_work_item-IsHandedBack}
use alustan.Controller.Application.{
  Surroundings, after_app_finalizer, after_registry, merge_app_statuses, sync_service, sync_tag,
  handle_app_sync_request, app_resource, process_next_app,
}
use alustan.Controller.Application.Laws.{handle_app_sync_request-NeverRaises}

module _ {V : Type 0} (E : Surroundings V) (over : TimesOut E.signals)
    (printing : IsPrinting E.environment.rendering) (filled : SecretsHaveData E.environment.cluster)
    (observed : App) where
  sync_service-Returns :
      (common : AppStatus) (latest_tag : String)
      → Returns (sync_service E observed common latest_tag)
  unfolding sync_service
  sync_service-Returns common latest_tag =
      let finalizing = is_some observed.metadata.deletion_timestamp in
      Returns-bind (run_service E.environment observed latest_tag finalizing E.signals) _
        (run_service-Returns E.environment observed E.signals over printing latest_tag finalizing)
        λ r h. ground arith

  sync_tag-Returns : (common : AppStatus) → Returns (sync_tag E observed common)
  unfolding sync_tag
  sync_tag-Returns common =
      Returns-if observed.spec.preview_environment.enabled _ _
        (sync_service-Returns common "{{.branch}}-{{.number}}")
        (Returns-bind
          (handle_app_registry E.semver E.decoding E.tag_decoding E.environment.getenv
            E.environment.cluster observed)
          (after_registry E observed common)
          (handle_app_registry-Returns E.semver E.decoding E.tag_decoding E.environment.getenv
            E.environment.cluster filled observed)
          (λ r.
            Returns-if (r.1.state == "Error") _ _ (λ h. tt)
              (sync_service-Returns (merge_app_statuses common r.1) r.0)))

  handle_app_sync_request-Returns : Returns (handle_app_sync_request E observed)
  unfolding handle_app_sync_request
  handle_app_sync_request-Returns =
      Returns-catch
        (add_finalizer E.environment.cluster E.environment.retry E.environment.objects apps
          observed.metadata.name observed.metadata.namespace)
        (after_app_finalizer E observed)
        (add_finalizer-Returns E.environment.cluster E.environment.retry E.environment.objects apps
          observed.metadata.name observed.metadata.namespace)
        (λ _. sync_tag-Returns (app_status "Progressing" "Starting processing")) (λ e h. tt)

-- If the timeout is among the signals of the wait for the dependencies, all values can be printed as YAML, and every secret that the
-- server answers with has data, then each key that the application controller takes is processed to
-- the end, whatever else the servers answer: the worker goes on, and the key is handed back once, after it was forgotten, or put back, or neither.
pub process_next_app-IsHandedBack :
    {V : Type 0} (E : Surroundings V) (codec : Converter App) (cache : Cache)
    → TimesOut E.signals
    → IsPrinting E.environment.rendering
    → SecretsHaveData E.environment.cluster
    → (k : String) (h : History) → IsHandedBack (process_next_app E codec cache (key k) h).0
unfolding process_next_app app_resource
process_next_app-IsHandedBack E codec cache over printing filled =
    process_next_work_item-IsHandedBack (app_resource E codec) cache
      (handle_app_sync_request-Returns E over printing filled)
      (λ resource status.
        update_app_status-Returns E.environment.cluster E.environment.retry codec
          resource.metadata.name resource.metadata.namespace status)
      (handle_app_sync_request-NeverRaises E)
