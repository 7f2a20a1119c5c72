-- ===== src/Controller/Lister.antt =====
-- pkg/infrastructure/listers and pkg/application/listers, which are one code, and the event handlers
-- of the controllers. The indexer is that of client-go; a label selector is kept as its text.
pub mod Laws
use alustan.Base.{
  String, List, Option, none, some, Result, ok, err, Error, new_error, bind_result, ◌<>◌,
}
use alustan.Cluster.{Kind, apps, terraforms}
use alustan.Controller.Worker.{CachedObject, Cache}

pub record Indexer : Type 0 where
  pub get_by_key : String → Result (Option CachedObject)
  pub list_all : String → Result (List CachedObject)
  pub list_all_by_namespace : String → String → Result (List CachedObject)

abbrev pub missing : Kind → Error
missing terraforms = new_error "terraform resource not found"
missing apps = new_error "app resource not found"

abbrev found_or_missing : Kind → Option CachedObject → Result CachedObject
found_or_missing kind none = err (missing kind)
found_or_missing kind (some object) = ok object

module _ (kind : Kind) (I : Indexer) where
  -- `List` of the lister, and of the lister of a namespace
  unfoldable pub list : String → Result (List CachedObject)
  list selector = bind_result (I.list_all selector) λ ret. ok ret

  unfoldable pub list_in : String → String → Result (List CachedObject)
  list_in namespace selector =
      bind_result (I.list_all_by_namespace namespace selector) λ ret. ok ret

  -- `GetByKey`
  unfoldable pub get_by_key : String → Result CachedObject
  get_by_key key = bind_result (I.get_by_key key) (found_or_missing kind)

  -- `Terraform(namespace).Get(name)` and `App(namespace).Get(name)`
  unfoldable pub get_in : String → String → Result CachedObject
  unfolding get_by_key
  get_in namespace name = get_by_key (namespace <> "/" <> name)

-- `cache.MetaNamespaceKeyFunc`, `cache.DeletionHandlingMetaNamespaceKeyFunc` and
-- `cache.SplitMetaNamespaceKey`
pub record KeyFunctions : Type 0 where
  pub key_of : CachedObject → Result String
  pub deletion_key_of : CachedObject → Result String
  pub split_key : String → Result (String × String)

pub data Event : Type 0 where
  added : CachedObject → Event
  updated : CachedObject → CachedObject → Event
  deleted : CachedObject → Event

-- `enqueue`, unless the key function failed.
abbrev enqueue : Result String → Option String
enqueue (ok key) = some key
enqueue (err _) = none

-- The handlers of the informer: the key that is added to the queue.
unfoldable pub handle_event : KeyFunctions → Event → Option String
handle_event K (added object) = enqueue (K.key_of object)
handle_event K (updated old new) = enqueue (K.key_of new)
handle_event K (deleted object) = enqueue (K.deletion_key_of object)

-- What a work item looks its object up in.
abbrev pub cache_of : Kind → KeyFunctions → Indexer → Cache
cache_of kind K I = record { split_key = K.split_key; get = get_in kind I }
