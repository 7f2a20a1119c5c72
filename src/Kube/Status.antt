-- ===== src/Kube/Status.antt =====
-- pkg/infrastructure/kubernetes/status.go, and pkg/application/kubernetes/status.go, which is the
-- same code for the other resource.
pub mod Laws
use alustan.Base.{String, errorf, is_conflict, is_not_found, if◌then◌else◌, Result, ok, err, ◌<>◌}
use alustan.Value.{Fields}
use alustan.Cluster.{
  Cluster, Kind, apps, terraforms, M, call, lift, pure, raise, try, wrap, ◌>>=◌, get_object,
  update_object_status,
}
use alustan.Kube.Retry.{Retry, Converter}
use alustan.Kube.Finalizer.{title}
use alustan.Types.{App, AppStatus, Terraform, TerraformStatus}

-- One run of the closure of `UpdateStatus`: a resource that is gone counts as updated.
module _ (c : Cluster) {A : Type 0} (codec : Converter A) (set_status : A → A) where
  write_status : Kind → String → Fields → M (Unit {0})
  write_status kind namespace object = do
    resource ←
        wrap (errorf ("failed to convert unstructured data to " <> title kind <> ": "))
          (lift (codec.from_unstructured object))
    object' ←
        wrap (errorf ("failed to convert " <> title kind <> " to unstructured data: "))
          (lift (codec.to_unstructured (set_status resource)))
    call c.ack (update_object_status kind namespace object')

  after_get : Kind → String → Result Fields → M (Unit {0})
  unfolding write_status
  after_get kind namespace (ok object) = write_status kind namespace object
  after_get kind namespace (err e) = if is_not_found e then pure tt else raise e

  unfoldable pub update_status_once : Kind → String → String → M (Unit {0})
  unfolding after_get
  update_status_once kind name namespace = do
    got ← try (call c.object (get_object kind namespace name))
    after_get kind namespace got

module _ (c : Cluster) (R : Retry) where
  -- `UpdateStatus` of pkg/infrastructure/kubernetes
  unfoldable pub update_terraform_status :
      Converter Terraform → String → String → TerraformStatus → M (Unit {0})
  update_terraform_status codec name namespace status =
      R.on_error is_conflict
        (update_status_once c codec (λ t. record t { status = status }) terraforms name namespace)

  -- `UpdateStatus` of pkg/application/kubernetes
  unfoldable pub update_app_status : Converter App → String → String → AppStatus → M (Unit {0})
  update_app_status codec name namespace status =
      R.on_error is_conflict
        (update_status_once c codec (λ a. record a { status = status }) apps name namespace)
