-- ===== src/Controller/Lister/Laws.antt =====
-- From an event of the informer to the work item that its key becomes.
use alustan.Base.{◌⊎◌, String, true, none, some, [], ◌∷◌, ok, ◌≡◌, refl, ◌<>◌, arith}
use alustan.Value.{Fields}
use alustan.Cluster.{Kind, apps, terraforms, History, returns, ◌>>=◌}
use alustan.Controller.Worker.{
  forgotten, finish, process_object, Resource, CachedObject, unstructured, forget, done, key,
  process_next_work_item, process_resource, lookup_failed,
}
use alustan.Controller.Lister.{
  missing, Indexer, KeyFunctions, Event, updated, added, handle_event, cache_of, get_in, get_by_key,
}

-- The text of the lister's error holds the words by which the work item knows it.
lookup_failed-missing : (kind : Kind) (k : String) → lookup_failed k (missing kind) ≡ forgotten none
unfolding lookup_failed
lookup_failed-missing terraforms k = refl
lookup_failed-missing apps k = refl

module _ {A S : Type 0} (R : Resource A S) (kind : Kind) (K : KeyFunctions) (I : Indexer) where
  -- A key whose object has left the index is only forgotten: no request is sent for it, in either
  -- controller.
  pub process_missing :
      (k namespace name : String) (h : History)
      → K.split_key k ≡ ok (namespace, name)
      → I.get_by_key (namespace <> "/" <> name) ≡ ok none
      → process_next_work_item R (cache_of kind K I) (key k) h
        ≡ (returns (ok (true, forget ∷ done ∷ [])), h)
  unfolding process_next_work_item process_object get_in get_by_key
  process_missing k namespace name h split gone =
      rw (split, gone, lookup_failed-missing kind k) refl

  -- The work item of an object that was added or updated, and is in the index under its key, handles
  -- the resource that the object converts to, as it is in the index by then.
  pub handle_event-process :
      (event : Event) (old object : CachedObject) (k namespace name : String) (fields : Fields)
      (resource : A) (h : History)
      → (event ≡ added object) ⊎ (event ≡ updated old object)
      → K.key_of object ≡ ok k
      → k ≡ namespace <> "/" <> name
      → K.split_key k ≡ ok (namespace, name)
      → I.get_by_key k ≡ ok (some (unstructured fields))
      → R.from_unstructured fields ≡ ok resource
      → (handle_event K event ≡ some k)
        × (process_next_work_item R (cache_of kind K I) (key k) h
            ≡ (process_resource R (cache_of kind K I) k resource >>= finish R (cache_of kind K I))
                h)
  unfolding handle_event process_next_work_item process_object get_in get_by_key
  handle_event-process event old object k namespace name fields resource h which keyed named split
        found converted =
      (ground (arith, which), rw (split, ← named, found, converted) refl)
