-- ===== src/Service/Dependencies.antt =====
-- `ExtractDependencies`, `checkDependentServices`, `CheckApplicationHealthAndSyncStatus` and
-- `WaitForAllDependenciesHealthAndSyncStatus`.
pub mod Laws
use alustan.Base.{
  String, Bool, true, false, ◌&&◌, Option, none, some, List, [], ◌∷◌, ◌++◌, StringMap, lookup, ◌==◌,
  new_error, if◌then◌else◌,
}
use alustan.Value.{Value, Items, Fields, nil, cons, get, as_map, as_list, as_text}
use alustan.Cluster.{
  Cluster, apps, M, call, pure, raise, still_waiting, ◌>>=◌, list_objects, get_application,
}
use alustan.Types.{App}
use alustan.Util.{contains_string}

-- The names of the entries that have one.
unfoldable pub dependency_names : List (StringMap String) → List String
unfolding lookup
dependency_names [] = []
dependency_names (dep ∷ deps) = elim (lookup "name" dep) [
  | none ↦ dependency_names deps
  | some name ↦ name ∷ dependency_names deps
]

-- `ExtractDependencies`; a nil slice has no names.
unfoldable pub extract_dependencies : App → List String
unfolding dependency_names
extract_dependencies observed = elim observed.spec.dependencies [
  | none ↦ []
  | some deps ↦ dependency_names deps
]

abbrev bind_option {ℓ κ} : {A : Type ℓ} {B : Type κ} → Option A → (A → Option B) → Option B
bind_option none f = none
bind_option (some a) f = f a

-- `spec.dependencies.service` of an unstructured App, if all of it has the right type.
unfoldable pub service_deps : Fields → Option Items
unfolding get
service_deps app = bind_option (as_map (get "spec" app)) λ spec.
    bind_option (as_map (get "dependencies" spec))
      λ dependencies. as_list (get "service" dependencies)

abbrev dep_name : Value → Option String
dep_name dep = bind_option (as_map (some dep)) λ dep_map. as_text (get "name" dep_map)

abbrev is_name : Option String → String → Bool
is_name none name = false
is_name (some dep) name = dep == name

-- The app's name, once for each of its dependencies that is the given one.
unfoldable pub matching_deps : String → String → Items → List String
unfolding get
matching_deps name app_name nil = []
matching_deps name app_name (cons dep deps) =
    if is_name (dep_name dep) name
    then app_name ∷ matching_deps name app_name deps
    else matching_deps name app_name deps

abbrev matching_in : String → String → Option Items → List String
matching_in name app_name none = []
matching_in name app_name (some deps) = matching_deps name app_name deps

-- `app.GetName()`, of Kubernetes' unstructured objects, is `get_name`.
module _ (get_name : Fields → String) where
  unfoldable pub dependents_among : String → List Fields → List String
  unfolding service_deps matching_deps
  dependents_among name [] = []
  dependents_among name (app ∷ rest) =
      matching_in name (get_name app) (service_deps app) ++ dependents_among name rest

  -- `checkDependentServices`
  unfoldable pub check_dependent_services : Cluster → App → M (List String)
  check_dependent_services c observed = do
    items ← call c.objects (list_objects apps observed.metadata.namespace)
    pure (dependents_among observed.metadata.name items)

-- What `select` receives: a tick of the ticker, or the timeout.
pub data Signal : Type 0 where
  tick timeout : Signal

module _ (c : Cluster) where
  -- `CheckApplicationHealthAndSyncStatus`
  unfoldable pub check_health_and_sync : String → M Bool
  check_health_and_sync app_name = do
    app ← call c.application (get_application "argocd" app_name)
    pure ((app.health == "Healthy") && (app.sync == "Synced"))

  -- One round over the dependencies: whether all of them are healthy and synced.
  unfoldable pub check_round : List String → Bool → M Bool
  check_round [] all_healthy = pure all_healthy
  check_round (dep ∷ deps) all_healthy = do
    healthy ← check_health_and_sync dep
    check_round deps (all_healthy && healthy)

  -- The keys of the map `dependencyStatus`; its values are written and never read.
  unfoldable pub distinct : List String → List String
  unfolding contains_string
  distinct [] = []
  distinct (dep ∷ deps) =
      let rest = distinct deps in if contains_string rest dep then rest else dep ∷ rest

  abbrev stop_if : Bool → M (Unit {0}) → M (Unit {0})
  stop_if true again = pure tt
  stop_if false again = again

  -- `WaitForAllDependenciesHealthAndSyncStatus` over the signals in the order of their arrival.
  unfoldable pub wait_rounds : List String → List Signal → M (Unit {0})
  wait_rounds deps [] = still_waiting
  wait_rounds deps (timeout ∷ _) =
      raise (new_error "timed out waiting for dependencies to become healthy and synced")
  wait_rounds deps (tick ∷ signals) = do
    all_healthy ← check_round deps true
    stop_if all_healthy (wait_rounds deps signals)

  unfoldable pub wait_for_all_dependencies : List String → List Signal → M (Unit {0})
  wait_for_all_dependencies dependencies signals = wait_rounds (distinct dependencies) signals
