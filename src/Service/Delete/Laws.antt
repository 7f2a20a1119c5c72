-- ===== src/Service/Delete/Laws.antt =====
-- About DeleteApplicationSet of pkg/application/service/service.go.
use mathlib.Core.Bool.{true≢false}
use alustan.Base.{
  Bool, false, ◌==◌, ◌≢◌, sym, ◌∙◌, ap, [], Option, Error, arith, Result-cases, is_internal_error,
  inr, inl, List-cases, String, ◌≡◌, refl, ok, none, List, ◌∷◌, Any,
}
use alustan.Value.{Fields}
use alustan.Cluster.{
  call, try-ok, M, Outcome, delete_application_set, Cluster, History, returns, apps, list_objects,
}
use alustan.Types.{App, AppStatus, app_status}
use alustan.Kube.Finalizer.{remove_finalizer}
use alustan.Kube.Retry.{on_error-last, Retry, Unstructured}
use alustan.Service.Dependencies.{check_dependent_services, dependents_among}
use alustan.Service.Dependencies.Laws.{DependsOn, dependents_among-empty}
use alustan.Service.Delete.{after_check, after_delete, after_removal, delete_set}

module _ (c : Cluster) (R : Retry) (U : Unstructured) (get_name : Fields → String)
    (observed : App) where
  -- While some app of the namespace names this one among its dependencies, DeleteApplicationSet
  -- sends nothing but the list request, neither the deletion nor an update of the finalizer, and
  -- reports "Blocked" with no error.
  pub delete_set-blocked :
      (h : History) (items : List Fields)
      → c.objects h (list_objects apps observed.metadata.namespace) ≡ ok items
      → Any (DependsOn observed.metadata.name) items
      → delete_set c R U get_name observed h ≡ (
        returns (ok (app_status "Blocked" "Service has dependent services, cannot delete", none)),
        list_objects apps observed.metadata.namespace ∷ h,
      )
  unfolding delete_set
  delete_set-blocked h items listed depends =
      rw listed (elim (List-cases (dependents_among get_name observed.metadata.name items)) [
        | inl free ↦
            absurd ((dependents_among-empty get_name observed.metadata.name items).0 free depends)
        | inr (x, xs, e) ↦ rw e refl
      ])

  abbrev pub completed : AppStatus × Option Error
  completed = (app_status "Completed" "Successfully deleted ApplicationSet", none)

  deletion : M (Unit {0})
  deletion =
      R.on_error is_internal_error (call c.ack (delete_application_set observed.metadata.name))

  -- The last run of a deletion that was tried again.
  deletion-acked :
      (h : History) (r : Outcome (Unit {0}) × History)
      → deletion h ≡ r
      → r.0 ≡ returns (ok tt)
      → (h' : History) × (c.ack h' (delete_application_set observed.metadata.name) ≡ ok tt)
  unfolding deletion
  deletion-acked h r e p =
      let q = delete_application_set observed.metadata.name in
      let (h', _, last) =
        on_error-last R is_internal_error (call c.ack q) h (λ _. Unit {0}) (λ _ _. tt) tt in
      (h', ground (arith, e, last, p))

  removed :
      (h : History)
      → (after_check c R U get_name observed (ok []) h).0 ≡ returns (ok completed)
      → ((h' : History) × (c.ack h' (delete_application_set observed.metadata.name) ≡ ok tt))
        × ((h' : History) × ((remove_finalizer c R U apps observed.metadata.name
                observed.metadata.namespace h').0
              ≡ returns (ok tt)))
  unfolding deletion
  removed h p =
      let (u, h', e, p') =
        try-ok deletion (after_delete c R U get_name observed) h (λ x h' q. cc q) p in
      let (v, h'', e', _) =
        try-ok (remove_finalizer c R U apps observed.metadata.name observed.metadata.namespace)
          (after_removal c R U get_name observed) h' (λ x h'' q. cc q) p' in
      (deletion-acked h (returns (ok u), h') e refl, (h', ap (λ r. r.0) e'))

  -- Whether the state is "Blocked".
  is_blocked : Outcome (AppStatus × Option Error) → Bool
  is_blocked (returns (ok (status, e))) = status.state == "Blocked"
  is_blocked _ = false

  blocked_not_completed :
      (h : History) (x : String) (xs : List String)
      → (after_check c R U get_name observed (ok (x ∷ xs)) h).0 ≢ returns (ok completed)
  unfolding is_blocked
  blocked_not_completed h x xs p = true≢false (ap is_blocked p)

  unblocked :
      (found : List String) (h : History)
      → (after_check c R U get_name observed (ok found) h).0 ≡ returns (ok completed)
      → (found ≡ [])
        × ((h' : History) × (c.ack h' (delete_application_set observed.metadata.name) ≡ ok tt))
        × ((h' : History) × ((remove_finalizer c R U apps observed.metadata.name
                observed.metadata.namespace h').0
              ≡ returns (ok tt)))
  unblocked [] h p = let (acked, gone) = removed h p in (refl, acked, gone)
  unblocked (x ∷ xs) h p = absurd (blocked_not_completed h x xs p)

  listed-items :
      (h : History) (found : List String) (h' : History)
      → check_dependent_services get_name c observed h ≡ (returns (ok found), h')
      → (items : List Fields) × (c.objects h (list_objects apps observed.metadata.namespace)
          ≡ ok items)
        × (found ≡ dependents_among get_name observed.metadata.name items)
  unfolding check_dependent_services
  listed-items h found h' e =
      elim (Result-cases (c.objects h (list_objects apps observed.metadata.namespace))) [
        | inr (x, failed) ↦ cc (rw failed at e)
        | inl (items, listed) ↦ (items, listed, cc (rw listed at e))
      ]

  -- DeleteApplicationSet reports completion only when the apps of the namespace were listed, none
  -- of them names this one among its dependencies, the deletion of the set was acknowledged, and
  -- the finalizer was removed without an error.
  pub delete_set-completed :
      (h : History)
      → (delete_set c R U get_name observed h).0 ≡ returns (ok completed)
      → ((items : List Fields) × (c.objects h (list_objects apps observed.metadata.namespace)
            ≡ ok items)
          × (¬ Any (DependsOn observed.metadata.name) items))
        × ((h' : History) × (c.ack h' (delete_application_set observed.metadata.name) ≡ ok tt))
        × ((h' : History) × ((remove_finalizer c R U apps observed.metadata.name
                observed.metadata.namespace h').0
              ≡ returns (ok tt)))
  unfolding delete_set
  delete_set-completed h p =
      let (found, h', e, p') =
        try-ok (check_dependent_services get_name c observed) (after_check c R U get_name observed)
          h (λ x h'' q. cc q) p in
      let (items, listed, among) = listed-items h found h' e in
      let (free, acked, gone) = unblocked found h' p' in
      (
        (
          items,
          listed,
          (dependents_among-empty get_name observed.metadata.name items).0 (sym among ∙ free),
        ),
        acked,
        gone,
      )
