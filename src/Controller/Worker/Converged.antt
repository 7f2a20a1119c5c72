-- ===== src/Controller/Worker/Converged.antt =====
-- What a work item that ends well has done, and that the next one for its resource has nothing to do.
use alustan.Base.{
  ◌++◌, List, String, true, Option, none, some, [], ◌∷◌, ok, Error, ◌≡◌, ◌≢◌, refl, ap, subst, ◌∙◌,
  ◌<◌, arith, ◌==◌, Bool-cases, inl, inr, eq_iff, ltb,
}
use alustan.Cluster.{History, returns, bind-run, try-run}
use alustan.Controller.Worker.{
  QueueCall, Resource, Cache, key, forget, done, process_next_work_item, process_object,
  process_resource, after_sync, after_error, after_update, destroyed, finish, forgotten, Processed,
}
use alustan.Controller.Worker.Laws.{IsCached}

only_forget :
    (calls : List QueueCall) → calls ++ done ∷ [] ≡ forget ∷ done ∷ [] → calls ≡ forget ∷ []
only_forget [] p = cc p
only_forget (c ∷ []) p = cc p
only_forget (c ∷ d ∷ []) p = cc p
only_forget (c ∷ d ∷ e ∷ calls) p = cc p

module _ {A S : Type 0} (R : Resource A S) (C : Cache) where
  -- The synchronisation has ended without an error, and its status, with the generation of the
  -- resource as the observed one, was written without an error.
  abbrev pub IsSynchronised : A → S → History → History → Type 0
  IsSynchronised resource status h h' =
      (h₁ : History) × (R.handle_sync_request resource h ≡ (returns (ok (status, none)), h₁))
      × (R.message status ≢ destroyed R C)
      × (R.update_status resource (R.set_observed_generation (R.generation resource) status) h₁
          ≡ (returns (ok tt), h'))

  after_error-forgotten :
      (k : String) (resource : A) (status : S) (e : Option Error) (h h' : History)
      (processed : Processed)
      → processed.calls ≡ forget ∷ []
      → after_error R C k resource status e h ≡ (returns (ok processed), h')
      → (e ≡ none)
        × (R.update_status resource (R.set_observed_generation (R.generation resource) status) h
            ≡ (returns (ok tt), h'))
  after_error-forgotten k resource status (some e) h h' processed c p = cc (p, c)
  after_error-forgotten k resource status none h h' processed c p =
      let (u, h₁, ran, q) =
        try-run
          (R.update_status resource (R.set_observed_generation (R.generation resource) status))
          (after_update R C) h (λ e h₁ q. cc (q, c)) p in
      (refl, ran ∙ ap (λ (x : History). (returns (ok tt), x)) (ap (λ r. r.1) q))

  after_sync-forgotten :
      (k : String) (resource : A) (r : S × Option Error) (h h' : History) (processed : Processed)
      → processed.calls ≡ forget ∷ []
      → after_sync R C k resource r h ≡ (returns (ok processed), h')
      → (R.message r.0 ≢ destroyed R C)
        × (after_error R C k resource r.0 r.1 h ≡ (returns (ok processed), h'))
  unfolding after_sync
  after_sync-forgotten k resource (status, e) h h' processed c p =
      elim (Bool-cases (R.message status == destroyed R C)) [
        | inl gone ↦ absurd (cc (rw gone at p, c))
        | inr other ↦
            (λ x. cc (other, (eq_iff (R.message status) (destroyed R C)).1 x), rw other at p)
      ]

  process_resource-IsSynchronised :
      (k : String) (resource : A) (h h' : History) (processed : Processed)
      → processed.calls ≡ forget ∷ []
      → R.observed_generation resource < R.generation resource
      → process_resource R C k resource h ≡ (returns (ok processed), h')
      → (status : S) × IsSynchronised resource status h h'
  unfolding process_resource
  process_resource-IsSynchronised k resource h h' processed c newer p =
      let test : ltb (R.observed_generation resource) (R.generation resource) ≡ true =
        ground (arith, newer) in
      let ((status, e), h₁, ran, after) =
        bind-run (R.handle_sync_request resource) (after_sync R C k resource) h (rw test at p) in
      let (other, ended) = after_sync-forgotten k resource (status, e) h₁ h' processed c after in
      let (no_error, written) = after_error-forgotten k resource status e h₁ h' processed c ended in
      (
        status,
        (
          h₁,
          subst (λ x. R.handle_sync_request resource h ≡ (returns (ok (status, x)), h₁)) no_error
              ran,
          other,
          written,
        ),
      )

  -- A resource whose generation is the observed one is left alone.
  pub process_resource-observed :
      (k : String) (resource : A) (h : History)
      → R.observed_generation resource ≡ R.generation resource
      → process_resource R C k resource h ≡ (returns (ok (forgotten none)), h)
  unfolding process_resource
  process_resource-observed k resource h same = ground (arith, same)

  pub item-IsSynchronised :
      (k : String) (resource : A) (h h' : History)
      → IsCached R C k resource
      → R.observed_generation resource < R.generation resource
      → process_next_work_item R C (key k) h ≡ (returns (ok (true, forget ∷ done ∷ [])), h')
      → (status : S) × IsSynchronised resource status h h'
  unfolding process_next_work_item process_object
  item-IsSynchronised k resource h h' (namespace, name, object, split, got, converted) newer p =
      let (processed, h₁, ran, ended) =
        bind-run (process_resource R C k resource) (finish R C) h
          (rw (split, got, converted) at p) in
      let same : h₁ ≡ h' = ap (λ r. r.1) ended in
      subst (λ x. (status : S) × IsSynchronised resource status h x) same
        (process_resource-IsSynchronised k resource h h₁ processed
          (only_forget processed.calls (cc ended)) newer ran)
