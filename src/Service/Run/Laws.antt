-- ===== src/Service/Run/Laws.antt =====
-- What it means that RunService returns without an error for an app that is not deleted.
use alustan.Base.{String, false, none, List, ok, ◌≡◌, ap, ◌<>◌, ◌==◌, if◌then◌else◌}
use alustan.Cluster.{History, pure, returns, try-run}
use alustan.Types.{App, AppStatus}
use alustan.Kube.PatSecret.{create_or_update_secret_with_pat}
use alustan.Service.Dependencies.{Signal, distinct, extract_dependencies, wait_for_all_dependencies}
use alustan.Service.Dependencies.Laws.{RoundHealthy, wait_rounds-ok}
use alustan.Service.ApplicationSet.{create_set}
use alustan.Service.ApplicationSet.Laws.{IsApplied, create_set-IsApplied}
use alustan.Service.Run.{
  Environment, after_set, after_wait, after_secret, delete_or_apply, run_service,
}

module _ (E : Environment) (observed : App) where
  abbrev secret_name : String
  secret_name = observed.metadata.name <> "-container-secret"

  -- In some whole round every dependency was answered as healthy and synced.
  abbrev pub AreHealthy : Type 0
  AreHealthy =
      (h : History) × RoundHealthy E.cluster (distinct E.cluster (extract_dependencies observed)) h

  delete_or_apply-IsApplied :
      (latest_tag : String) (signals : List Signal) (h h' : History) (status : AppStatus)
      → delete_or_apply E observed secret_name latest_tag false signals h
        ≡ (returns (ok (status, none)), h')
      → AreHealthy × IsApplied E.cluster E.retry E.rendering observed secret_name "pat" latest_tag
  unfolding delete_or_apply wait_for_all_dependencies
  delete_or_apply-IsApplied latest_tag signals h h' status p =
      let (u, h₁, waited, e₁) =
        try-run (wait_for_all_dependencies E.cluster (extract_dependencies observed) signals)
          (after_wait E observed secret_name latest_tag) h (λ x h₁ q. cc q) p in
      let (conditions, h₂, applied, e₂) =
        try-run (create_set E.cluster E.retry E.rendering observed secret_name "pat" latest_tag)
          (after_set E observed) h₁ (λ x h₂ q. cc q) e₁ in
      let (h₃, healthy, _) =
        wait_rounds-ok E.cluster (distinct E.cluster (extract_dependencies observed)) signals h
          (ap (λ r. r.0) waited) in
      (
        (h₃, healthy),
        create_set-IsApplied E.cluster E.retry E.rendering observed secret_name "pat" latest_tag h₁
            h₂ conditions applied,
      )

  pub run_service-ok :
      (latest_tag : String) (signals : List Signal) (h : History) (status : AppStatus)
      → (run_service E observed latest_tag false signals h).0 ≡ returns (ok (status, none))
      → AreHealthy × IsApplied E.cluster E.retry E.rendering observed secret_name "pat" latest_tag
  unfolding run_service
  run_service-ok latest_tag signals h status p =
      let run = run_service E observed latest_tag false signals h in
      let p' : run ≡ (returns (ok (status, none)), run.1) = ap (λ o. (o, run.1)) p in
      let pat = E.getenv "GITHUB_TOKEN" in
      let (u, h₁, stored, e) =
        try-run
          (if pat == ""
            then pure tt
            else create_or_update_secret_with_pat E.cluster "argocd" secret_name "pat" pat E.base64)
          (after_secret E observed secret_name latest_tag false signals) h (λ x h₁ q. cc q) p' in
      delete_or_apply-IsApplied latest_tag signals h₁ run.1 status e
