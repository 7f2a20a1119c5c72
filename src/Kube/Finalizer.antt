-- ===== src/Kube/Finalizer.antt =====
-- pkg/infrastructure/kubernetes/finalizer.go, and pkg/application/kubernetes/finalizer.go, which
-- is the same code for the other resource.
pub mod Laws
use alustan.Base.{String, Bool, List, [], ◌∷◌, ◌++◌, ◌<>◌, errorf, is_conflict, if◌then◌else◌}
use alustan.Value.{Fields}
use alustan.Cluster.{
  Cluster, Kind, apps, terraforms, M, call, lift, pure, wrap, ◌>>=◌, get_object, update_object,
}
use alustan.Kube.Retry.{Retry, Unstructured}
use alustan.Util.{contains_string, remove_string}

abbrev pub title : Kind → String
title apps = "App"
title terraforms = "Terraform"

abbrev pub finalizer_name : Kind → String
finalizer_name apps = "app.finalizer.alustan.io"
finalizer_name terraforms = "terraform.finalizer.alustan.io"

abbrev pub finalizers_path : List String
finalizers_path = "metadata" ∷ "finalizers" ∷ []

module _ (c : Cluster) (U : Unstructured) (kind : Kind) (name namespace : String) where
  -- The end of both closures: the changed slice is put into the object, and the object is sent.
  write_back : Fields → List String → M (Unit {0})
  write_back object finalizers = do
    object' ←
        wrap (errorf "failed to set finalizers: ")
          (lift (U.set_nested_string_slice object finalizers finalizers_path))
    wrap (errorf ("failed to update " <> title kind <> " resource: "))
        (call c.ack (update_object kind namespace object'))

  -- One run of the closure of `AddFinalizer`.
  add_if_missing : Fields → List String → M (Unit {0})
  unfolding write_back contains_string
  add_if_missing object finalizers =
      if contains_string finalizers (finalizer_name kind)
      then pure tt
      else write_back object (finalizers ++ finalizer_name kind ∷ [])

  unfoldable pub add_finalizer_once : M (Unit {0})
  unfolding add_if_missing
  add_finalizer_once = do
    object ←
        wrap (errorf ("failed to get " <> title kind <> " resource: "))
          (call c.object (get_object kind namespace name))
    add_if_missing object (U.nested_string_slice object finalizers_path)

  -- One run of the closure of `RemoveFinalizer`.
  remove_if_present : Fields → List String → M (Unit {0})
  unfolding write_back contains_string remove_string
  remove_if_present object finalizers =
      if contains_string finalizers (finalizer_name kind)
      then write_back object (remove_string finalizers (finalizer_name kind))
      else pure tt

  unfoldable pub remove_finalizer_once : M (Unit {0})
  unfolding remove_if_present
  remove_finalizer_once = do
    object ←
        wrap (errorf ("failed to get " <> title kind <> " resource: "))
          (call c.object (get_object kind namespace name))
    remove_if_present object (U.nested_string_slice object finalizers_path)

module _ (c : Cluster) (R : Retry) (U : Unstructured) (kind : Kind) (name namespace : String) where
  -- `AddFinalizer`
  unfoldable pub add_finalizer : M (Unit {0})
  add_finalizer = R.on_error is_conflict (add_finalizer_once c U kind name namespace)

  -- `RemoveFinalizer`
  unfoldable pub remove_finalizer : M (Unit {0})
  remove_finalizer = R.on_error is_conflict (remove_finalizer_once c U kind name namespace)
