-- ===== src/Controller/Application.antt =====
-- pkg/application/controller/controller.go: the synchronisation of one App resource.
pub mod Laws
pub mod Termination
pub mod Applied
pub mod Converged
use alustan.Base.{
  ℕ, String, Bool, Option, none, some, List, [], ◌∷◌, Result, ok, err, Error, errorf, new_error,
  StringMap, is_some, ◌<>◌, ◌==◌, if◌then◌else◌,
}
use alustan.Value.{Value}
use alustan.Cluster.{apps, M, pure, try, ◌>>=◌}
use alustan.Types.{App, AppStatus, app_status}
use alustan.Kube.Retry.{Converter}
use alustan.Kube.Finalizer.{add_finalizer}
use alustan.Kube.Status.{update_app_status}
use alustan.Containers.DockerSecret.{Decoding}
use alustan.Registry.LatestTag.{Semver}
use alustan.Registry.TaggedImage.{handle_app_registry}
use alustan.Service.Dependencies.{Signal}
use alustan.Service.Run.{Environment, run_service}
use alustan.Controller.Worker.{Resource, Cache, QueueObject, QueueCall, process_next_work_item}
use alustan.Registry.Clients.{TagDecoding}

abbrev or_base : String → String → String
or_base base new = if new == "" then base else new

abbrev or_conditions : List Value → List Value → List Value
or_conditions base [] = base
or_conditions base (condition ∷ new) = condition ∷ new

abbrev or_urls : Option (StringMap String) → Option (StringMap String) → Option (StringMap String)
or_urls base none = base
or_urls base (some urls) = some urls

-- `mergeStatuses` of the application controller
unfoldable pub merge_app_statuses : AppStatus → AppStatus → AppStatus
merge_app_statuses base new = record base {
  state = or_base base.state new.state;
  message = or_base base.message new.message;
  health_status = or_conditions base.health_status new.health_status;
  preview_urls = or_urls base.preview_urls new.preview_urls;
}

-- Everything outside the controller's own code that the synchronisation uses; the signals are those
-- of the wait for the dependencies.
pub record Surroundings (V : Type 0) : Type 1 where
  pub environment : Environment
  pub semver : Semver V
  pub decoding : Decoding
  pub tag_decoding : TagDecoding
  pub signals : List Signal

module _ {V : Type 0} (E : Surroundings V) where
  abbrev pub after_service : AppStatus → AppStatus × Option Error → M (AppStatus × Option Error)
  after_service common (status, none) = pure (merge_app_statuses common status, none)
  after_service common (status, some e) =
      pure (merge_app_statuses common status, some (errorf "error running service: " e))

  -- The last step.
  unfoldable pub sync_service : App → AppStatus → String → M (AppStatus × Option Error)
  unfolding run_service
  sync_service observed common latest_tag =
      run_service E.environment observed latest_tag (is_some observed.metadata.deletion_timestamp)
        E.signals
      >>= after_service common

  abbrev pub after_registry : App → AppStatus → String × AppStatus → M (AppStatus × Option Error)
  after_registry observed common (latest_tag, registry_status) =
      let merged = merge_app_statuses common registry_status in
      if registry_status.state == "Error"
      then pure (merged, some (new_error "error getting tagged image name"))
      else sync_service observed merged latest_tag

  -- What follows the finalizer: a preview is not looked up in the registry.
  unfoldable pub sync_tag : App → AppStatus → M (AppStatus × Option Error)
  unfolding handle_app_registry
  sync_tag observed common =
      if observed.spec.preview_environment.enabled
      then sync_service observed common "{{.branch}}-{{.number}}"
      else handle_app_registry E.semver E.decoding E.tag_decoding E.environment.getenv
          E.environment.cluster observed
        >>= after_registry observed common

  abbrev pub after_app_finalizer : App → Result (Unit {0}) → M (AppStatus × Option Error)
  after_app_finalizer observed (err e) =
      pure (app_status "Error" ("Failed to add finalizer: " <> e.message), some e)
  after_app_finalizer observed (ok _) =
      sync_tag observed (app_status "Progressing" "Starting processing")

  -- `handleSyncRequest` of the application controller
  unfoldable pub handle_app_sync_request : App → M (AppStatus × Option Error)
  handle_app_sync_request observed = do
    r ← try (
        add_finalizer E.environment.cluster E.environment.retry E.environment.objects apps
          observed.metadata.name observed.metadata.namespace)
    after_app_finalizer observed r

  -- The controller as the work item sees it; `updateStatus` passes the error on.
  unfoldable pub app_resource : Converter App → Resource App AppStatus
  app_resource codec = record {
    from_unstructured = codec.from_unstructured;
    generation = λ a. a.metadata.generation;
    observed_generation = λ a. a.status.observed_generation;
    message = λ s. s.message;
    set_observed_generation = λ n s. record s { observed_generation = n };
    handle_sync_request = handle_app_sync_request;
    update_status = λ a s.
        update_app_status E.environment.cluster E.environment.retry codec a.metadata.name
          a.metadata.namespace s;
  }

  -- `processNextWorkItem` of the application controller
  unfoldable pub process_next_app : Converter App → Cache → QueueObject → M (Bool × List QueueCall)
  process_next_app codec cache = process_next_work_item (app_resource codec) cache
