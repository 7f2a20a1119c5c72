-- ===== src/Service/Dependencies/Laws.antt =====
-- Who depends on whom, and what the wait for the dependencies means.
use alustan.Base.{
  err, ◌∙◌, sym, ap, ◌&&◌, Bool-cases, ◌==◌, ◌≢◌, Result-cases, inr, inl, Option-cases, ◌⊎◌, String,
  Bool, true, false, ◌≡◌, refl, ◌↔◌, Option, none, some, List, [], ◌∷◌, ◌++◌, Any, arith, eq_iff,
  ok,
}
use alustan.Value.{Items, Fields, nil, cons}
use alustan.Cluster.{
  waiting, crashed, ◌>>=◌, Outcome, Cluster, History, Application, returns, get_application,
}
use alustan.Service.Dependencies.{
  stop_if, matching_in, Signal, tick, timeout, check_health_and_sync, check_round, wait_rounds,
  service_deps, dep_name, matching_deps, dependents_among,
}

-- Some item of the list is a map whose "name" is the text.
abbrev pub HasDep : String → Items → Type 0
HasDep name nil = ⊥
HasDep name (cons dep deps) = (dep_name dep ≡ some name) ⊎ HasDep name deps

-- An app whose dependencies hold the name.
abbrev pub DependsIn : String → Option Items → Type 0
DependsIn name none = ⊥
DependsIn name (some deps) = HasDep name deps

abbrev pub DependsOn : String → Fields → Type 0
DependsOn name app = DependsIn name (service_deps app)

matching_deps-empty :
    (name app_name : String) (deps : Items)
    → (matching_deps name app_name deps ≡ []) ↔ ¬ HasDep name deps
unfolding matching_deps
matching_deps-empty name app_name nil = (λ _ d. d, λ _. refl)
matching_deps-empty name app_name (cons dep deps) = elim (Option-cases (dep_name dep)) [
  | inl e ↦ ground (arith, matching_deps-empty name app_name deps)
  | inr (d, e) ↦ ground (arith, matching_deps-empty name app_name deps, eq_iff d name)
]

append-empty : (xs ys : List String) → (xs ++ ys ≡ []) ↔ ((xs ≡ []) × (ys ≡ []))
append-empty [] ys = (λ e. (refl, e), λ p. p.1)
append-empty (x ∷ xs) ys = (λ e. cc e, λ p. cc p.0)

matching_in-empty :
    (name app_name : String) (deps : Option Items)
    → (matching_in name app_name deps ≡ []) ↔ ¬ DependsIn name deps
matching_in-empty name app_name none = (λ _ d. d, λ _. refl)
matching_in-empty name app_name (some deps) = matching_deps-empty name app_name deps

-- Deletion is free to go on exactly when no app of the namespace names this one among its
-- dependencies, whatever else is or is not of the right type in their specifications.
pub dependents_among-empty :
    (get_name : Fields → String) (name : String) (items : List Fields)
    → (dependents_among get_name name items ≡ []) ↔ ¬ Any (DependsOn name) items
unfolding dependents_among
dependents_among-empty get_name name [] = (λ _ d. d, λ _. refl)
dependents_among-empty get_name name (app ∷ items) = ground (
  arith,
  append-empty (matching_in name (get_name app) (service_deps app))
      (dependents_among get_name name items),
  matching_in-empty name (get_name app) (service_deps app),
  dependents_among-empty get_name name items,
)

module _ (c : Cluster) where
  -- In one round from this history on, every dependency is answered as healthy and synced.
  abbrev pub RoundHealthy : List String → History → Type 0
  RoundHealthy [] h = Unit {0}
  RoundHealthy (dep ∷ deps) h =
      ((app : Application) × (c.application h (get_application "argocd" dep) ≡ ok app)
        × (((app.health == "Healthy") && (app.sync == "Synced")) ≡ true))
      × RoundHealthy deps (get_application "argocd" dep ∷ h)

  -- The history behind a whole round.
  abbrev pub asked : List String → History → History
  asked [] h = h
  asked (dep ∷ deps) h = asked deps (get_application "argocd" dep ∷ h)

  check_round-false :
      (deps : List String) (h : History) → (check_round c deps false h).0 ≢ returns (ok true)
  unfolding check_round check_health_and_sync
  check_round-false [] h p = ground arith
  check_round-false (dep ∷ deps) h p =
      ground (arith, check_round-false deps (get_application "argocd" dep ∷ h))

  check_round-true :
      (deps : List String) (h : History)
      → (check_round c deps true h).0 ≡ returns (ok true)
      → RoundHealthy deps h × ((check_round c deps true h).1 ≡ asked deps h)
  unfolding check_round check_health_and_sync
  check_round-true [] h p = (tt, refl)
  check_round-true (dep ∷ deps) h p =
      elim (Result-cases (c.application h (get_application "argocd" dep))) [
        | inr (e, r) ↦ absurd (ground arith)
        | inl (app, r) ↦ elim (Bool-cases ((app.health == "Healthy") && (app.sync == "Synced"))) [
          | inl healthy ↦
              let (rest, same) =
                check_round-true deps (get_application "argocd" dep ∷ h) (rw (r, healthy) at p) in
              (((app, r, healthy), rest), rw (r, healthy) same)
          | inr not_yet ↦
              absurd
                (check_round-false deps (get_application "argocd" dep ∷ h) (rw (r, not_yet) at p))
        ]
      ]

  check_round_complete :
      (deps : List String) (h : History)
      → RoundHealthy deps h
      → check_round c deps true h ≡ (returns (ok true), asked deps h)
  unfolding check_round check_health_and_sync
  check_round_complete [] h p = refl
  check_round_complete (dep ∷ deps) h ((app, r, healthy), rest) =
      rw (r, healthy) (check_round_complete deps (get_application "argocd" dep ∷ h) rest)

  -- The wait returns nil only behind a round, the last one, in which every dependency was answered
  -- as healthy and synced: one that was healthy in an earlier round only does not count.
  pub wait_rounds-ok :
      (deps : List String) (signals : List Signal) (h : History)
      → (wait_rounds c deps signals h).0 ≡ returns (ok tt)
      → (h' : History) × RoundHealthy deps h' × ((wait_rounds c deps signals h).1 ≡ asked deps h')
  unfolding wait_rounds
  wait_rounds-ok deps [] h p = absurd (ground arith)
  wait_rounds-ok deps (timeout ∷ signals) h p = absurd (ground arith)
  wait_rounds-ok deps (tick ∷ signals) h p =
      round_cases (wait_rounds-ok deps signals) (check_round c deps true h) refl p
    where
      round_cases :
          ((h' : History)
            → (wait_rounds c deps signals h').0 ≡ returns (ok tt)
            → (h'' : History) × RoundHealthy deps h''
              × ((wait_rounds c deps signals h').1 ≡ asked deps h''))
          → (r : Outcome Bool × History) → check_round c deps true h ≡ r
          → (((λ _. r) >>= λ all_healthy. stop_if c all_healthy (wait_rounds c deps signals)) h).0
            ≡ returns (ok tt)
          → (h' : History) × RoundHealthy deps h'
            × ((((λ _. r) >>= λ all_healthy. stop_if c all_healthy (wait_rounds c deps signals))
                  h).1
                ≡ asked deps h')
      round_cases later (returns (ok true), h') e q =
          let (healthy, same) = check_round-true deps h (ap (λ x. x.0) e) in
          (h, healthy, ap (λ x. x.1) (sym e) ∙ same)
      round_cases later (returns (ok false), h') e q = later h' q
      round_cases later (returns (err x), h') e q = absurd (cc q)
      round_cases later (waiting, h') e q = absurd (cc q)
      round_cases later (crashed, h') e q = absurd (cc q)
