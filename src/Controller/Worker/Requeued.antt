-- ===== src/Controller/Worker/Requeued.antt =====
-- What has happened in a work item whose key is put back.
use alustan.Base.{
  ◌++◌, List, String, true, Option, none, some, [], ◌∷◌, ok, err, Error, ◌≡◌, ◌≢◌, inl, inr, ap,
  sym, subst, ◌==◌, Bool-cases, eq_iff, ltb,
}
use alustan.Cluster.{Outcome, waiting, crashed, caught, continue, History, returns, bind-run}
use alustan.Controller.Worker.{
  QueueCall, Resource, Cache, key, add_rate_limited, done, process_next_work_item, process_object,
  process_resource, after_sync, after_error, after_update, destroyed, finish, Processed,
}
use alustan.Controller.Worker.Laws.{IsCached}

only_put_back :
    (calls : List QueueCall)
    → calls ++ done ∷ [] ≡ add_rate_limited ∷ done ∷ []
    → calls ≡ add_rate_limited ∷ []
only_put_back [] p = cc p
only_put_back (c ∷ []) p = cc p
only_put_back (c ∷ d ∷ []) p = cc p
only_put_back (c ∷ d ∷ e ∷ calls) p = cc p

module _ {A S : Type 0} (R : Resource A S) (C : Cache) where
  -- The status update behind this status.
  abbrev pub HasNotWritten : A → S → Option Error → History → History → Type 0
  HasNotWritten resource status (some _) h₁ h' = h' ≡ h₁
  HasNotWritten resource status none h₁ h' =
      (e : Error) × (R.update_status resource
          (R.set_observed_generation (R.generation resource) status) h₁
        ≡ (returns (err e), h'))

  -- The synchronisation has failed, and nothing was sent behind it; or it has succeeded, and the
  -- update of the status has failed.
  abbrev pub IsPutBack : A → History → History → Type 0
  IsPutBack resource h h' =
      (status : S) × (e : Option Error) × (h₁ : History) × (R.handle_sync_request resource h
        ≡ (returns (ok (status, e)), h₁))
      × (R.message status ≢ destroyed R C)
      × HasNotWritten resource status e h₁ h'

  after_update-requeued :
      (r : Outcome (Unit {0}) × History) (h' : History) (processed : Processed)
      → processed.calls ≡ add_rate_limited ∷ []
      → continue (caught r.0) (after_update R C) r.1 ≡ (returns (ok processed), h')
      → (e : Error) × (r ≡ (returns (err e), h'))
  after_update-requeued (returns (ok _), h₁) h' processed c p = absurd (cc (p, c))
  after_update-requeued (returns (err e), h₁) h' processed c p =
      (e, ap (λ (x : History). (returns (err e), x)) (ap (λ r. r.1) p))
  after_update-requeued (waiting, h₁) h' processed c p = absurd (cc p)
  after_update-requeued (crashed, h₁) h' processed c p = absurd (cc p)

  after_error-requeued :
      (k : String) (resource : A) (status : S) (e : Option Error) (h h' : History)
      (processed : Processed)
      → processed.calls ≡ add_rate_limited ∷ []
      → after_error R C k resource status e h ≡ (returns (ok processed), h')
      → HasNotWritten resource status e h h'
  after_error-requeued k resource status (some e) h h' processed c p = ap (λ r. r.1) (sym p)
  after_error-requeued k resource status none h h' processed c p =
      after_update-requeued
        (R.update_status resource (R.set_observed_generation (R.generation resource) status) h) h'
        processed c p

  after_sync-requeued :
      (k : String) (resource : A) (status : S) (e : Option Error) (h h' : History)
      (processed : Processed)
      → processed.calls ≡ add_rate_limited ∷ []
      → after_sync R C k resource (status, e) h ≡ (returns (ok processed), h')
      → (R.message status ≢ destroyed R C) × HasNotWritten resource status e h h'
  unfolding after_sync
  after_sync-requeued k resource status e h h' processed c p =
      elim (Bool-cases (R.message status == destroyed R C)) [
        | inl gone ↦ absurd (cc (rw gone at p, c))
        | inr other ↦ (
          λ x. cc (other, (eq_iff (R.message status) (destroyed R C)).1 x),
          after_error-requeued k resource status e h h' processed c (rw other at p),
        )
      ]

  process_resource-requeued :
      (k : String) (resource : A) (h h' : History) (processed : Processed)
      → processed.calls ≡ add_rate_limited ∷ []
      → process_resource R C k resource h ≡ (returns (ok processed), h')
      → IsPutBack resource h h'
  unfolding process_resource
  process_resource-requeued k resource h h' processed c p =
      elim (Bool-cases (ltb (R.observed_generation resource) (R.generation resource))) [
        | inr same ↦ absurd (cc (rw same at p, c))
        | inl newer ↦
            let ((status, e), h₁, ran, after) =
              bind-run (R.handle_sync_request resource) (after_sync R C k resource) h
                (rw newer at p) in
            let (other, unwritten) =
              after_sync-requeued k resource status e h₁ h' processed c after in
            (status, e, h₁, ran, other, unwritten)
      ]

  -- When the key of a resource that is in the cache is put back, then either its synchronisation has
  -- failed, and no request was sent behind it, so that the status with the error was not written; or
  -- the synchronisation has succeeded, and the update of the status has failed. In neither case was
  -- the resource found destroyed.
  pub item-IsPutBack :
      (k : String) (resource : A) (h h' : History)
      → IsCached R C k resource
      → process_next_work_item R C (key k) h
        ≡ (returns (ok (true, add_rate_limited ∷ done ∷ [])), h')
      → IsPutBack resource h h'
  unfolding process_next_work_item process_object
  item-IsPutBack k resource h h' (namespace, name, object, split, got, converted) p =
      let (processed, h₁, ran, ended) =
        bind-run (process_resource R C k resource) (finish R C) h
          (rw (split, got, converted) at p) in
      let same : h₁ ≡ h' = ap (λ r. r.1) ended in
      subst (λ x. IsPutBack resource h x) same
        (process_resource-requeued k resource h h₁ processed
          (only_put_back processed.calls (cc ended)) ran)
