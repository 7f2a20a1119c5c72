-- ===== src/Controller/Worker/Laws.antt =====
-- What one work item does to the queue and to the cluster.
use alustan.Base.{
  Result, ◌==◌, ltb, Bool-cases, Option, is_some, none, some, ◌≤◌, String, Bool, true, false, ◌≡◌,
  refl, ◌⊎◌, inl, inr, List, [], ◌∷◌, ok, err, arith, Error,
}
use alustan.Cluster.{
  pure, IsNoError, NeverRaises, waiting, crashed, ◌>>=◌, try, Outcome, History, returns,
}
use alustan.Controller.Worker.{
  other_object, finish, process_converted, unstructured, process_cached, process_split,
  CachedObject, lookup_failed, destroyed, after_update, after_error, Resource, Cache, key,
  QueueCall, forget, add_rate_limited, done, Processed, process_next_work_item, process_object,
  process_resource, after_sync,
}
use alustan.Value.{Fields}

module _ {A S : Type 0} (R : Resource A S) (C : Cache) where
  -- An item's outcome is settled: it is forgotten, or put back with an error that the closure
  -- returns, or neither; never both, and the closure itself has no other error.
  abbrev pub IsSettled : Outcome Processed → Type 0
  IsSettled (returns (ok p)) =
      (p.calls ≡ forget ∷ [])
      ⊎ ((p.calls ≡ add_rate_limited ∷ []) × (is_some p.error ≡ true))
      ⊎ ((p.calls ≡ []) × (is_some p.error ≡ false))
  IsSettled (returns (err e)) = ⊥
  IsSettled waiting = Unit {0}
  IsSettled crashed = Unit {0}

  after_error-IsSettled :
      (k : String) (resource : A) (status : S) (e : Option Error) (h : History)
      → IsSettled (after_error R C k resource status e h).0
  after_error-IsSettled k resource status (some e) h = inr (inl (refl, refl))
  after_error-IsSettled k resource status none h = update (R.update_status _ _ h)
    where
      update :
          (r : Outcome (Unit {0}) × History) → IsSettled ((try (λ _. r) >>= after_update R C) h).0
      update (returns (ok _), h') = inl refl
      update (returns (err e), h') = inr (inl (refl, refl))
      update (waiting, h') = tt
      update (crashed, h') = tt

  after_sync-IsSettled :
      (k : String) (resource : A) (status : S) (e : Option Error) (h : History)
      → IsSettled (after_sync R C k resource (status, e) h).0
  unfolding after_sync
  after_sync-IsSettled k resource status e h =
      elim (Bool-cases (R.message status == destroyed R C)) [
        | inl gone ↦ rw gone (inr (inr (refl, refl)))
        | inr stays ↦ rw stays (after_error-IsSettled k resource status e h)
      ]

module _ {A S : Type 0} (R : Resource A S) (C : Cache)
    (reports : (resource : A) → NeverRaises (R.handle_sync_request resource)) where
  synced-IsSettled :
      (k : String) (resource : A) (r : Outcome (S × Option Error) × History) (h : History)
      → IsNoError r.0
      → IsSettled R C (((λ _. r) >>= after_sync R C k resource) h).0
  synced-IsSettled k resource (returns (ok (status, e)), h') h p =
      after_sync-IsSettled R C k resource status e h'
  synced-IsSettled k resource (returns (err e), h') h p = p
  synced-IsSettled k resource (waiting, h') h p = p
  synced-IsSettled k resource (crashed, h') h p = p

  process_resource-IsSettled :
      (k : String) (resource : A) (h : History)
      → IsSettled R C (process_resource R C k resource h).0
  unfolding process_resource
  process_resource-IsSettled k resource h =
      elim (Bool-cases (ltb (R.observed_generation resource) (R.generation resource))) [
        | inl newer ↦
            rw newer (
              synced-IsSettled k resource (R.handle_sync_request resource h) h (reports resource h))
        | inr old ↦ rw old (inl refl)
      ]

  lookup_failed-IsSettled :
      (k : String) (e : Error) (h : History) → IsSettled R C (pure (lookup_failed k e) h).0
  unfolding lookup_failed
  lookup_failed-IsSettled k e h = ground arith

  process_cached-IsSettled :
      (k : String) (object : Result CachedObject) (h : History)
      → IsSettled R C (process_cached R C k object h).0
  process_cached-IsSettled k (err e) h = lookup_failed-IsSettled k e h
  process_cached-IsSettled k (ok other_object) h = inl refl
  process_cached-IsSettled k (ok (unstructured object)) h = converted (R.from_unstructured object)
    where
      converted : (r : Result A) → IsSettled R C (process_converted R C k r h).0
      converted (err e) = inl refl
      converted (ok resource) = process_resource-IsSettled k resource h

  pub process_object-IsSettled :
      (k : String) (h : History) → IsSettled R C (process_object R C (key k) h).0
  unfolding process_object
  process_object-IsSettled k h = split (C.split_key k)
    where
      split : (r : Result (String × String)) → IsSettled R C (process_split R C k r h).0
      split (err e) = inl refl
      split (ok (namespace, name)) = process_cached-IsSettled k (C.get namespace name) h

  -- A key that has been processed is handed back to the queue exactly once, at the end, and before
  -- that it is forgotten, or put back, or neither, and never two of these; the worker goes on.
  pub process_next_work_item-settles :
      (k : String) (h h' : History) (goes_on : Bool) (calls : List QueueCall)
      → process_next_work_item R C (key k) h ≡ (returns (ok (goes_on, calls)), h')
      → (goes_on ≡ true)
        × ((calls ≡ forget ∷ done ∷ [])
            ⊎ (calls ≡ add_rate_limited ∷ done ∷ [])
            ⊎ (calls ≡ done ∷ []))
  unfolding process_next_work_item
  process_next_work_item-settles k h h' goes_on calls p =
      at_end (process_object R C (key k) h) (process_object-IsSettled k h) p
    where
      at_end :
          (r : Outcome Processed × History)
          → IsSettled R C r.0
          → ((λ _. r) >>= finish R C) h ≡ (returns (ok (goes_on, calls)), h')
          → (goes_on ≡ true)
            × ((calls ≡ forget ∷ done ∷ [])
                ⊎ (calls ≡ add_rate_limited ∷ done ∷ [])
                ⊎ (calls ≡ done ∷ []))
      at_end (returns (ok p), h'') s e = ground arith
      at_end (returns (err x), h'') s e = absurd s
      at_end (waiting, h'') s e = cc e
      at_end (crashed, h'') s e = cc e

module _ {A S : Type 0} (R : Resource A S) (C : Cache) where
  -- The cache holds the resource under this key.
  abbrev pub IsCached : String → A → Type 0
  IsCached k resource =
      (namespace name : String) × (object : Fields) × (C.split_key k ≡ ok (namespace, name))
      × (C.get namespace name ≡ ok (unstructured object))
      × (R.from_unstructured object ≡ ok resource)

  -- A resource whose generation has been observed is only forgotten: no request is sent for it.
  pub process_observed :
      (k : String) (resource : A) (h : History)
      → IsCached k resource
      → R.generation resource ≤ R.observed_generation resource
      → process_next_work_item R C (key k) h ≡ (returns (ok (true, forget ∷ done ∷ [])), h)
  unfolding process_next_work_item process_object process_resource
  process_observed k resource h (namespace, name, object, split, got, converted) old =
      rw (split, got, converted) (ground arith)
