-- ===== src/Controller/Worker/Termination.antt =====
-- About processNextWorkItem of both controllers when the synchronisation comes to an end.
use alustan.Base.{
  ◌++◌, Bool, Error, ◌==◌, ltb, Option, some, none, Result, ok, err, String, true, ◌≡◌, refl, ◌⊎◌,
  List, [], ◌∷◌, arith,
}
use alustan.Cluster.{
  NeverRaises, Returns, Returns-bind, Returns-if, Returns-catch, IsReturned, Outcome, History,
  returns, waiting, crashed, ◌>>=◌,
}
use alustan.Controller.Worker.{
  Resource, Cache, CachedObject, unstructured, other_object, Processed, QueueCall, forget,
  add_rate_limited, done, key, destroyed, after_error, after_sync, process_resource,
  process_converted, process_cached, process_split, process_object, process_next_work_item, finish,
}
use alustan.Controller.Worker.Laws.{IsSettled, process_object-IsSettled}

-- The processing of the key is over, and the key is handed back.
abbrev pub IsHandedBack : Outcome (Bool × List QueueCall) → Type 0
IsHandedBack o =
    (calls : List QueueCall) × (o ≡ returns (ok (true, calls)))
    × ((calls ≡ forget ∷ done ∷ []) ⊎ (calls ≡ add_rate_limited ∷ done ∷ []) ⊎ (calls ≡ done ∷ []))

module _ {A S : Type 0} (R : Resource A S) (C : Cache)
    (syncs : (resource : A) → Returns (R.handle_sync_request resource))
    (updates : (resource : A) (status : S) → Returns (R.update_status resource status)) where
  after_error-Returns :
      (k : String) (resource : A) (status : S) (e : Option Error)
      → Returns (after_error R C k resource status e)
  after_error-Returns k resource status (some e) = λ h. tt
  after_error-Returns k resource status none =
      Returns-catch
        (R.update_status resource (R.set_observed_generation (R.generation resource) status)) _
        (updates resource (R.set_observed_generation (R.generation resource) status)) (λ _ h. tt)
        (λ e h. tt)

  after_sync-Returns :
      (k : String) (resource : A) (r : S × Option Error) → Returns (after_sync R C k resource r)
  unfolding after_sync
  after_sync-Returns k resource (status, e) =
      Returns-if (R.message status == destroyed R C) _ _ (λ h. tt)
        (after_error-Returns k resource status e)

  process_resource-Returns : (k : String) (resource : A) → Returns (process_resource R C k resource)
  unfolding process_resource
  process_resource-Returns k resource =
      Returns-if (ltb (R.observed_generation resource) (R.generation resource)) _ _
        (Returns-bind (R.handle_sync_request resource) (after_sync R C k resource) (syncs resource)
          (after_sync-Returns k resource))
        (λ h. tt)

  process_converted-Returns : (k : String) (r : Result A) → Returns (process_converted R C k r)
  process_converted-Returns k (err e) = λ h. tt
  process_converted-Returns k (ok resource) = process_resource-Returns k resource

  process_cached-Returns : (k : String) (r : Result CachedObject) → Returns (process_cached R C k r)
  process_cached-Returns k (err e) = λ h. tt
  process_cached-Returns k (ok other_object) = λ h. tt
  process_cached-Returns k (ok (unstructured object)) =
      process_converted-Returns k (R.from_unstructured object)

  process_split-Returns :
      (k : String) (r : Result (String × String)) → Returns (process_split R C k r)
  process_split-Returns k (err e) = λ h. tt
  process_split-Returns k (ok (namespace, name)) = process_cached-Returns k (C.get namespace name)

  process_object-Returns : (k : String) → Returns (process_object R C (key k))
  unfolding process_object
  process_object-Returns k = process_split-Returns k (C.split_key k)

  pub process_next_work_item-IsHandedBack :
      ((resource : A) → NeverRaises (R.handle_sync_request resource))
      → (k : String) (h : History) → IsHandedBack (process_next_work_item R C (key k) h).0
  unfolding process_next_work_item
  process_next_work_item-IsHandedBack reports k h =
      at_end (process_object R C (key k) h) (process_object-IsSettled R C reports k h)
        (process_object-Returns k h)
    where
      at_end :
          (r : Outcome Processed × History)
          → IsSettled R C r.0
          → IsReturned r.0
          → IsHandedBack (((λ _. r) >>= finish R C) h).0
      at_end (returns (ok p), h') s t = (p.calls ++ done ∷ [], refl, ground (arith, s))
      at_end (returns (err e), h') s t = absurd s
      at_end (waiting, h') s t = absurd t
      at_end (crashed, h') s t = absurd t
