-- ===== src/Kube/Termination.antt =====
-- About the actions of Kube, which come to an end when the library's loops do.
use alustan.Base.{subst, String, Bool, arith, Error, is_conflict}
use alustan.Cluster.{Cluster, Kind, M, History, Outcome, Returns, IsReturned}
use alustan.Types.{Terraform, TerraformStatus, App, AppStatus}
use alustan.Kube.Retry.{Retry, Unstructured, Converter, Attempts, last, again}
use alustan.Kube.ArgoCluster.{
  Backoff, Polls, finished, failed, exhausted, stuck, crashes, label_default, create_new,
  ensure_once, create_or_update_argo_cluster,
}
use alustan.Kube.Finalizer.{
  add_finalizer_once, add_finalizer, remove_finalizer_once, remove_finalizer,
}
use alustan.Kube.Status.{update_status_once, update_terraform_status, update_app_status}

Attempts-Returns :
    {A : Type 0} {retriable : Error → Bool} {m : M A} {h : History} {r : Outcome A × History}
    → Returns m
    → Attempts retriable m h r
    → IsReturned r.0
Attempts-Returns k (last h) = k h
Attempts-Returns k (again h e f t next) = Attempts-Returns k next

pub on_error-Returns :
    (R : Retry) {A : Type 0} (retriable : Error → Bool) (m : M A)
    → Returns m
    → Returns (R.on_error retriable m)
on_error-Returns R retriable m k h = Attempts-Returns k (R.runs retriable m h)

Polls-Returns :
    {m : M Bool} {h : History} {r : Outcome (Unit {0}) × History}
    → Returns m
    → Polls m h r
    → IsReturned r.0
Polls-Returns k (finished h e) = tt
Polls-Returns k (failed h x e) = tt
Polls-Returns k (exhausted h x e) = tt
Polls-Returns k (Polls.again h e next) = Polls-Returns k next
Polls-Returns k (stuck h e) = subst IsReturned e (k h)
Polls-Returns k (crashes h e) = subst IsReturned e (k h)

module _ (c : Cluster) (R : Retry) where
  module _ (U : Unstructured) (kind : Kind) (name namespace : String) where
    add_finalizer_once-Returns : Returns (add_finalizer_once c U kind name namespace)
    unfolding add_finalizer_once
    add_finalizer_once-Returns h = ground arith

    remove_finalizer_once-Returns : Returns (remove_finalizer_once c U kind name namespace)
    unfolding remove_finalizer_once
    remove_finalizer_once-Returns h = ground arith

    pub add_finalizer-Returns : Returns (add_finalizer c R U kind name namespace)
    unfolding add_finalizer
    add_finalizer-Returns = on_error-Returns R is_conflict _ add_finalizer_once-Returns

    pub remove_finalizer-Returns : Returns (remove_finalizer c R U kind name namespace)
    unfolding remove_finalizer
    remove_finalizer-Returns = on_error-Returns R is_conflict _ remove_finalizer_once-Returns

  update_status_once-Returns :
      {A : Type 0} (codec : Converter A) (set_status : A → A) (kind : Kind)
      (name namespace : String)
      → Returns (update_status_once c codec set_status kind name namespace)
  unfolding update_status_once
  update_status_once-Returns codec set_status kind name namespace h = ground arith

  pub update_terraform_status-Returns :
      (codec : Converter Terraform) (name namespace : String) (status : TerraformStatus)
      → Returns (update_terraform_status c R codec name namespace status)
  unfolding update_terraform_status
  update_terraform_status-Returns codec name namespace status =
      on_error-Returns R is_conflict _ (update_status_once-Returns codec _ _ name namespace)

  pub update_app_status-Returns :
      (codec : Converter App) (name namespace : String) (status : AppStatus)
      → Returns (update_app_status c R codec name namespace status)
  unfolding update_app_status
  update_app_status-Returns codec name namespace status =
      on_error-Returns R is_conflict _ (update_status_once-Returns codec _ _ name namespace)

module _ (c : Cluster) (B : Backoff) (cluster_name environment : String) where
  ensure_once-Returns : Returns (ensure_once c cluster_name environment)
  unfolding ensure_once label_default create_new
  ensure_once-Returns h = ground arith

  pub create_or_update_argo_cluster-Returns :
      (has_client : Bool)
      → Returns (create_or_update_argo_cluster c B has_client cluster_name environment)
  unfolding create_or_update_argo_cluster
  create_or_update_argo_cluster-Returns has_client h =
      ground (
        arith,
        Polls-Returns ensure_once-Returns (B.runs (ensure_once c cluster_name environment) h),
      )
