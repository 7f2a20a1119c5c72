-- ===== src/Controller/Application/Applied.antt =====
-- What it means that handleSyncRequest of the application controller ends without an error.
use alustan.Base.{
  String, Bool, true, false, Option, none, some, ok, Error, subst, if◌then◌else◌, is_some, ◌≡◌, ◌⊎◌,
  inl, inr, ap, ◌==◌, ◌<>◌, refl, Bool-cases,
}
use alustan.Cluster.{apps, History, returns, M, ◌>>=◌, bind-run, try-run}
use alustan.Types.{App, AppStatus, app_status}
use alustan.Kube.Finalizer.{add_finalizer}
use alustan.Registry.TaggedImage.{handle_app_registry}
use alustan.Registry.TaggedImage.Newest.{IsListed, handle_app_registry-IsListed}
use alustan.Service.ApplicationSet.Laws.{IsApplied}
use alustan.Service.Run.{run_service}
use alustan.Service.Run.Laws.{AreHealthy, run_service-ok}
use alustan.Controller.Application.{
  Surroundings, sync_service, sync_tag, after_registry, after_service, after_app_finalizer,
  handle_app_sync_request, merge_app_statuses,
}

module _ {V : Type 0} (E : Surroundings V) (observed : App) where
  -- The tag of a preview is the placeholder of its branch, any other is from the registry.
  abbrev pub IsChosen : String → Type 0
  IsChosen tag =
      ((observed.spec.preview_environment.enabled ≡ true) × (tag ≡ "{{.branch}}-{{.number}}"))
      ⊎ ((observed.spec.preview_environment.enabled ≡ false)
          × IsListed E.semver E.decoding E.tag_decoding E.environment.getenv E.environment.cluster
              observed.spec.container_registry tag)

  -- Every dependency was healthy, and the set was applied with a tag that was chosen.
  abbrev pub IsDeployed : Type 0
  IsDeployed =
      (tag : String) × IsChosen tag
      × (AreHealthy E.environment observed
          × IsApplied E.environment.cluster E.environment.retry E.environment.rendering observed
              (observed.metadata.name <> "-container-secret") "pat" tag)

  after_service-none :
      (common status : AppStatus) (r : AppStatus × Option Error) (h h' : History)
      → after_service E common r h ≡ (returns (ok (status, none)), h')
      → r.1 ≡ none
  after_service-none common status (_, none) h h' p = refl
  after_service-none common status (_, some e) h h' p = absurd (cc p)

  sync_service-IsDeployed :
      (common status : AppStatus) (tag : String) (h h' : History)
      → observed.metadata.deletion_timestamp ≡ none
      → IsChosen tag
      → sync_service E observed common tag h ≡ (returns (ok (status, none)), h')
      → IsDeployed
  unfolding sync_service
  sync_service-IsDeployed common status tag h h' kept chosen p =
      let run = run_service E.environment observed tag in
      let ((status', e), h₁, ran, last) =
        bind-run (run (is_some observed.metadata.deletion_timestamp) E.signals)
          (after_service E common) h p in
      let no_error = after_service-none common status (status', e) h₁ h' last in
      let finalizing = ap is_some kept in
      let done = subst (λ x. run x E.signals h ≡ (returns (ok (status', e)), h₁)) finalizing ran in
      (
        tag,
        chosen,
        run_service-ok E.environment observed tag E.signals h status' (
            subst (λ x. (run false E.signals h).0 ≡ returns (ok (status', x))) no_error
              (ap (λ r. r.0) done)),
      )

  after_registry-IsDeployed :
      (common status found : AppStatus) (tag : String) (h h' : History)
      → observed.metadata.deletion_timestamp ≡ none
      → ((found.state == "Error") ≡ false → IsChosen tag)
      → after_registry E observed common (tag, found) h ≡ (returns (ok (status, none)), h')
      → IsDeployed
  after_registry-IsDeployed common status found tag h h' kept chosen p =
      elim (Bool-cases (found.state == "Error")) [
        | inl failed ↦ absurd (cc (rw failed at p))
        | inr good ↦
            sync_service-IsDeployed (merge_app_statuses common found) status tag h h' kept
              (chosen good) (rw good at p)
      ]

  sync_tag-IsDeployed :
      (common status : AppStatus) (h h' : History)
      → observed.metadata.deletion_timestamp ≡ none
      → sync_tag E observed common h ≡ (returns (ok (status, none)), h')
      → IsDeployed
  unfolding sync_tag
  sync_tag-IsDeployed common status h h' kept =
      by_preview observed.spec.preview_environment.enabled refl
    where
      lookup_tag : M (String × AppStatus)
      lookup_tag =
          handle_app_registry E.semver E.decoding E.tag_decoding E.environment.getenv
            E.environment.cluster observed

      by_preview :
          (preview : Bool)
          → observed.spec.preview_environment.enabled ≡ preview
          → (if preview
                then sync_service E observed common "{{.branch}}-{{.number}}"
                else lookup_tag >>= after_registry E observed common)
              h
            ≡ (returns (ok (status, none)), h')
          → IsDeployed
      by_preview true is p =
          sync_service-IsDeployed common status "{{.branch}}-{{.number}}" h h' kept (inl (is, refl))
            p
      by_preview false is p =
          let ((tag, found), h₁, ran, rest) =
            bind-run lookup_tag (after_registry E observed common) h p in
          after_registry-IsDeployed common status found tag h₁ h' kept
            (λ good. inr (
              is,
              handle_app_registry-IsListed E.semver E.decoding E.tag_decoding E.environment.getenv
                  E.environment.cluster observed tag found h h₁ ran good,
            ))
            rest

  -- When the synchronisation of an app that is not deleted ends without an error, every dependency
  -- was answered as healthy and synced, and the set was applied with the text of the newest
  -- version among the registry's tags that meets the constraint of the app as the tag, or for a
  -- preview with that of its branch.
  pub handle_app_sync_request-IsDeployed :
      (status : AppStatus) (h h' : History)
      → observed.metadata.deletion_timestamp ≡ none
      → handle_app_sync_request E observed h ≡ (returns (ok (status, none)), h')
      → IsDeployed
  unfolding handle_app_sync_request
  handle_app_sync_request-IsDeployed status h h' kept p =
      let (u, h₁, _, rest) =
        try-run
          (add_finalizer E.environment.cluster E.environment.retry E.environment.objects apps
            observed.metadata.name observed.metadata.namespace)
          (after_app_finalizer E observed) h (λ e h₁ q. cc q) p in
      sync_tag-IsDeployed (app_status "Progressing" "Starting processing") status h₁ h' kept rest
