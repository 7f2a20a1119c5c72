-- ===== src/Tests/Kube.antt =====
-- Examples for the finalizers and the retry.
use alustan.Base.{lookup, inl, ◌++◌, refl, [], ◌∷◌, true, false, ok, ◌≡◌, ◌⊎◌, List}
use alustan.Value.{Fields}
use alustan.Cluster.{list_clusters, ArgoCluster, History, terraforms, apps, returns}
use alustan.Util.{contains_string}
use alustan.Kube.Finalizer.{
  finalizers_path, add_finalizer, add_finalizer_once, remove_finalizer, remove_finalizer_once,
}
use alustan.Kube.Finalizer.Laws.{finalizers_never_retry, add_finalizer-ok, Read, Rewritten}
use alustan.Kube.ArgoCluster.{create_new, scan, ensure_once, create_or_update_argo_cluster}
use alustan.Kube.ArgoCluster.Ensured.{IsEnsured, create_or_update_argo_cluster-ok}
use alustan.Kube.ArgoCluster.Laws.{
  AlwaysControl, cluster_writes, create_or_update_argo_cluster-respects_control,
}
use alustan.Kube.Status.{update_status_once, update_terraform_status}
use alustan.Kube.Status.Laws.{update_terraform_status-ok, IsGone, IsWritten}
use alustan.Types.{Terraform, TerraformStatus, terraform_status}
use alustan.Tests.Fixtures.{
  managed, one_poll, always, shop, calm, contended, endless, one_run, first_field,
}

add_finalizer_test :
    (add_finalizer calm one_run first_field terraforms "shop" "default" []).0 ≡ returns (ok tt)
unfolding add_finalizer add_finalizer_once
add_finalizer_test = refl

remove_finalizer_test :
    (remove_finalizer endless one_run first_field terraforms "shop" "default" []).0
    ≡ returns (ok tt)
unfolding remove_finalizer remove_finalizer_once
remove_finalizer_test = refl

finalizers_never_retry_example :
    (add_finalizer contended one_run first_field apps "web" "default" []
      ≡ add_finalizer_once contended first_field apps "web" "default" [])
    × (remove_finalizer contended one_run first_field apps "web" "default" []
        ≡ remove_finalizer_once contended first_field apps "web" "default" [])
finalizers_never_retry_example =
    finalizers_never_retry contended one_run first_field apps "web" "default" []

-- The finalizer is missing, and added.
add_finalizer-ok_example :
    (object : Fields) × (let slice = first_field.nested_string_slice object finalizers_path in
      let h' = (add_finalizer calm one_run first_field terraforms "shop" "default" []).1 in
      ((contains_string slice "terraform.finalizer.alustan.io" ≡ true)
        × Read calm terraforms "shop" "default" [] object h')
      ⊎ ((contains_string slice "terraform.finalizer.alustan.io" ≡ false)
          × Rewritten calm first_field terraforms "shop" "default" [] object
              (slice ++ "terraform.finalizer.alustan.io" ∷ [])
              h'))
unfolding add_finalizer add_finalizer_once
add_finalizer-ok_example =
    add_finalizer-ok calm one_run first_field terraforms "shop" "default" [] refl

managed-AlwaysControl : AlwaysControl managed "in-cluster" "dev"
unfolding lookup
managed-AlwaysControl h [] e = absurd (cc e)
managed-AlwaysControl h (cl ∷ cls) e = inl (cc e)

create_or_update_argo_cluster-respects_control_example :
    cluster_writes (create_or_update_argo_cluster managed one_poll true "in-cluster" "dev" []).1 ≡ 0
create_or_update_argo_cluster-respects_control_example =
    create_or_update_argo_cluster-respects_control managed one_poll true "in-cluster" "dev" []
      managed-AlwaysControl

-- Argo CD knows no cluster: one with the label is created.
create_or_update_argo_cluster-ok_example :
    (h' : History) × (cls : List ArgoCluster) × (calm.clusters h' list_clusters ≡ ok cls)
    × IsEnsured calm "in-cluster" "dev" h' cls
unfolding create_or_update_argo_cluster ensure_once scan create_new
create_or_update_argo_cluster-ok_example =
    create_or_update_argo_cluster-ok calm one_poll true "in-cluster" "dev" [] refl

abbrev done_status : TerraformStatus
done_status = terraform_status "Completed" "done"

update_terraform_status-ok_example :
    (h₁ : History) × (let h' =
        (update_terraform_status calm one_run (always shop) "shop" "default" done_status []).1 in
      let set_status : Terraform → Terraform = λ t. record t { status = done_status } in
      IsGone calm (always shop) set_status terraforms "shop" "default" h₁ h'
      ⊎ IsWritten calm (always shop) set_status terraforms "shop" "default" h₁ h')
unfolding update_terraform_status update_status_once
update_terraform_status-ok_example =
    update_terraform_status-ok calm one_run (always shop) "shop" "default" done_status [] refl
