-- ===== src/Service/Delete.antt =====
-- `DeleteApplicationSet`: an app that others depend on stays.
pub mod Laws
use alustan.Base.{
  ◌<>◌, String, Bool, List, [], ◌∷◌, Option, none, some, Result, ok, err, Error, is_internal_error,
}
use alustan.Value.{Fields}
use alustan.Cluster.{Cluster, apps, M, call, pure, try, ◌>>=◌, delete_application_set}
use alustan.Types.{App, AppStatus, app_status}
use alustan.Kube.Retry.{Retry, Unstructured}
use alustan.Kube.Finalizer.{remove_finalizer}
use alustan.Service.Dependencies.{check_dependent_services}

module _ (c : Cluster) (R : Retry) (U : Unstructured) (get_name : Fields → String)
    (observed : App) where
  -- The status with which a step ends whose error is returned too.
  abbrev failed_with : String → String → Error → M (AppStatus × Option Error)
  failed_with state action e = pure (app_status state (action <> e.message), some e)

  abbrev after_removal : Result (Unit {0}) → M (AppStatus × Option Error)
  after_removal (err e) = failed_with "Error" "Failed to remove finalizer: " e
  after_removal (ok _) = pure (app_status "Completed" "Successfully deleted ApplicationSet", none)

  abbrev after_delete : Result (Unit {0}) → M (AppStatus × Option Error)
  after_delete (err e) = failed_with "Failed" "Error deleting ApplicationSet: " e
  after_delete (ok _) = do
    r ← try (remove_finalizer c R U apps observed.metadata.name observed.metadata.namespace)
    after_removal r

  abbrev after_check : Result (List String) → M (AppStatus × Option Error)
  after_check (err e) = failed_with "Failed" "Error checking dependent services: " e
  after_check (ok (_ ∷ _)) =
      pure (app_status "Blocked" "Service has dependent services, cannot delete", none)
  after_check (ok []) = do
    r ←
        try (
          R.on_error is_internal_error (call c.ack (delete_application_set observed.metadata.name)))
    after_delete r

  -- `DeleteApplicationSet`
  unfoldable pub delete_set : M (AppStatus × Option Error)
  unfolding check_dependent_services
  delete_set = do r ← try (check_dependent_services get_name c observed); after_check r
