-- ===== src/Controller/Worker.antt =====
-- `processNextWorkItem` of both controllers, which is one code at two resource types. The calls of
-- the work queue are returned in their order: handleSyncRequest and updateStatus have no access
-- to the queue.
pub mod Laws
pub mod Termination
pub mod Converged
pub mod Requeued
use alustan.Base.{
  ℕ, String, Bool, true, false, Option, none, some, List, [], ◌∷◌, ◌++◌, Result, ok, err, Error,
  errorf, new_error, is_some, find?, is_internal_error, is_server_timeout, ltb, ◌||◌, ◌==◌, ◌<>◌,
  if◌then◌else◌,
}
use alustan.Value.{Fields}
use alustan.Cluster.{M, pure, try, ◌>>=◌}

-- What `workqueue.Get` hands out: a key, an object of another type, or the end of the queue.
pub data QueueObject : Type 0 where
  key : String → QueueObject
  foreign : QueueObject
  shutdown : QueueObject

pub data QueueCall : Type 0 where
  forget add_rate_limited done : QueueCall

-- A `runtime.Object` of the informer's cache.
pub data CachedObject : Type 0 where
  unstructured : Fields → CachedObject
  other_object : CachedObject

-- The calls of the queue that one item led to, and the error of the closure.
pub record Processed : Type 0 where
  pub calls : List QueueCall
  pub error : Option Error

-- What differs between the controllers: the resource `A` and its status `S`.
pub record Resource (A S : Type 0) : Type 0 where
  pub from_unstructured : Fields → Result A
  pub generation : A → ℕ
  pub observed_generation : A → ℕ
  pub message : S → String
  pub set_observed_generation : ℕ → S → S
  pub handle_sync_request : A → M (S × Option Error)
  pub update_status : A → S → M (Unit {0})

-- `cache.SplitMetaNamespaceKey` and the lister.
pub record Cache : Type 0 where
  pub split_key : String → Result (String × String)
  pub get : String → String → Result CachedObject

abbrev pub forgotten : Option Error → Processed
forgotten e = record { calls = forget ∷ []; error = e }

abbrev pub requeued : Error → Processed
requeued e = record { calls = add_rate_limited ∷ []; error = some e }

-- The lister failed.
unfoldable pub lookup_failed : String → Error → Processed
lookup_failed k e =
    if is_some (find? e.message "not found")
    then forgotten none
    else if is_internal_error e || is_server_timeout e
    then requeued (errorf ("transient error fetching resource. requeing!! " <> k <> ": ") e)
    else forgotten (some (errorf ("non-transient error fetching resource " <> k <> ": ") e))

module _ {A S : Type 0} (R : Resource A S) (C : Cache) where
  abbrev pub after_update : Result (Unit {0}) → M Processed
  after_update (ok _) = pure (forgotten none)
  after_update (err e) = pure (requeued e)

  abbrev pub after_error : String → A → S → Option Error → M Processed
  after_error k resource status (some e) =
      pure (requeued (new_error ("error syncing '" <> k <> "': " <> e.message <> ", requeuing")))
  after_error k resource status none = do
    r ← try (R.update_status resource (R.set_observed_generation (R.generation resource) status))
    after_update r

  abbrev pub destroyed : String
  destroyed = "Destroy completed successfully"

  -- What follows handleSyncRequest.
  unfoldable pub after_sync : String → A → S × Option Error → M Processed
  after_sync k resource (status, e) =
      if R.message status == destroyed
      then pure (record { calls = []; error = none })
      else after_error k resource status e

  unfoldable pub process_resource : String → A → M Processed
  process_resource k resource =
      if ltb (R.observed_generation resource) (R.generation resource)
      then (do r ← R.handle_sync_request resource; after_sync k resource r)
      else pure (forgotten none)

  abbrev process_converted : String → Result A → M Processed
  process_converted k (err _) = pure (forgotten none)
  process_converted k (ok resource) = process_resource k resource

  abbrev process_cached : String → Result CachedObject → M Processed
  process_cached k (err e) = pure (lookup_failed k e)
  process_cached k (ok other_object) = pure (forgotten none)
  process_cached k (ok (unstructured object)) = process_converted k (R.from_unstructured object)

  abbrev process_split : String → Result (String × String) → M Processed
  process_split k (err _) = pure (forgotten none)
  process_split k (ok (namespace, name)) = process_cached k (C.get namespace name)

  -- The closure.
  unfoldable pub process_object : QueueObject → M Processed
  process_object (key k) = process_split k (C.split_key k)
  process_object _ = pure (forgotten none)

  abbrev pub finish : Processed → M (Bool × List QueueCall)
  finish p = pure (true, p.calls ++ done ∷ [])

  -- `processNextWorkItem`: whether the worker goes on, and the calls of the queue; the deferred
  -- `Done` comes last.
  unfoldable pub process_next_work_item : QueueObject → M (Bool × List QueueCall)
  process_next_work_item shutdown = pure (false, [])
  process_next_work_item (key k) = process_object (key k) >>= finish
  process_next_work_item foreign = process_object foreign >>= finish
