-- ===== src/Terraform/Termination.antt =====
-- About the scripts of a Terraform resource, which come to an end when their pods do.
use alustan.Base.{errorf, ◌==◌, ◌∷◌, ℕ, zero, suc, ◌<◌, ◌<>◌, String, Bool, true, false, arith}
use alustan.Cluster.{
  wrap, Returns-catch, lift, Returns-wrap, Returns-if, terraforms, Cluster, History, Returns,
  Returns-bind, IsReturned, get_pod,
}
use alustan.Types.{Terraform, TerraformStatus}
use alustan.Kube.Retry.{Retry}
use alustan.Containers.Wait.Laws.{IsFinal, polled}
use alustan.Containers.Termination.{
  PodsEnd, wait_for_pod_completion-Returns, extract_post_deploy_output-Returns,
  create_or_update_run_pod-Returns,
}
use alustan.Kube.Termination.{
  on_error-Returns, remove_finalizer-Returns, create_or_update_argo_cluster-Returns,
}
use alustan.Terraform.Run.{RunArgs, run_pod_with_retry, run_apply, is_timeout}
use alustan.Terraform.Destroy.{await_destroyed, run_destroy}
use alustan.Terraform.PostDeploy.{join_args, format_args, run_post_deploy}
use alustan.Terraform.Execute.{Services, execute_terraform, after_apply}
use alustan.Containers.Wait.{wait_for_pod_completion}
use alustan.Kube.ArgoCluster.{create_or_update_argo_cluster}
use alustan.Containers.Script.{with_dot_slash}
use alustan.Containers.RunPod.{create_or_update_run_pod}

module _ (c : Cluster) (R : Retry) (observed : Terraform) where
  run_pod_with_retry-Returns :
      (args : RunArgs) (app : String) → Returns (run_pod_with_retry c R observed args app)
  unfolding run_pod_with_retry
  run_pod_with_retry-Returns args app = on_error-Returns R is_timeout _ (
      create_or_update_run_pod-Returns c observed.metadata.name observed.metadata.namespace
        args.script_content args.env_vars args.tagged_image_name args.secret_name app)

module _ (c : Cluster) (namespace pod_name : String) where
  await_destroyed-from :
      (n fuel : ℕ) (h : History)
      → IsFinal c namespace pod_name
          (c.pod (polled c namespace pod_name n h) (get_pod namespace pod_name))
      → n < fuel
      → IsReturned (await_destroyed c namespace pod_name fuel h).0
  unfolding await_destroyed
  await_destroyed-from n zero h final lt = absurd (omega arith)
  await_destroyed-from zero (suc fuel) h final lt = ground arith
  await_destroyed-from (suc n) (suc fuel) h final lt =
      ground (arith, await_destroyed-from n fuel (get_pod namespace pod_name ∷ h))

module _ (E : Services) (observed : Terraform) (args : RunArgs) (fuel : ℕ)
    (ends : PodsEnd E.cluster fuel) where
  waited :
      (pod_name : String)
      → Returns (wait_for_pod_completion E.cluster observed.metadata.namespace pod_name fuel)
  waited = wait_for_pod_completion-Returns E.cluster fuel ends observed.metadata.namespace

  run_apply-Returns : Returns (run_apply E.cluster E.retry observed args fuel)
  unfolding run_apply
  run_apply-Returns =
      Returns-catch (run_pod_with_retry E.cluster E.retry observed args "deploy") _
        (run_pod_with_retry-Returns E.cluster E.retry observed args "deploy")
        (λ pod_name h. ground (arith, waited pod_name h)) (λ e h. tt)

  await_destroyed-Returns :
      (pod_name : String)
      → Returns (await_destroyed E.cluster observed.metadata.namespace pod_name fuel)
  await_destroyed-Returns pod_name h =
      let (n, lt, final) = ends observed.metadata.namespace pod_name h in
      await_destroyed-from E.cluster observed.metadata.namespace pod_name n fuel h final lt

  run_destroy-Returns : Returns (run_destroy E.cluster E.retry E.objects observed args fuel)
  unfolding run_destroy
  run_destroy-Returns =
      Returns-if (args.script_content == "") _ _ (λ h. tt)
        (Returns-catch (run_pod_with_retry E.cluster E.retry observed args "destroy") _
          (run_pod_with_retry-Returns E.cluster E.retry observed args "destroy")
          (λ pod_name.
            Returns-catch (await_destroyed E.cluster observed.metadata.namespace pod_name fuel) _
              (await_destroyed-Returns pod_name)
              (λ _ h. ground (
                arith,
                remove_finalizer-Returns E.cluster E.retry E.objects terraforms
                    observed.metadata.name observed.metadata.namespace h,
              ))
              (λ e h. tt))
          (λ e h. tt))

  run_post_deploy-Returns : Returns (run_post_deploy E.json E.cluster observed args fuel)
  unfolding run_post_deploy
  run_post_deploy-Returns =
      Returns-bind (lift (format_args args.env_vars observed.spec.post_deploy.args)) _ (λ h. tt)
        λ formatted.
          let run =
            create_or_update_run_pod E.cluster observed.metadata.name observed.metadata.namespace
              (with_dot_slash observed.spec.post_deploy.script <> " " <> join_args formatted)
              args.env_vars args.tagged_image_name args.secret_name "postdeploy" in
          Returns-bind (wrap (errorf "failed to create post-deploy pod: ") run) _
            (Returns-wrap (errorf "failed to create post-deploy pod: ") run (
              create_or_update_run_pod-Returns E.cluster observed.metadata.name
                observed.metadata.namespace
                (with_dot_slash observed.spec.post_deploy.script <> " " <> join_args formatted)
                args.env_vars args.tagged_image_name args.secret_name "postdeploy"))
            λ pod_name h. ground (
              arith,
              extract_post_deploy_output-Returns E.cluster fuel ends observed.metadata.namespace
                  pod_name E.json.unmarshal_map h,
            )

  after_apply-Returns :
      (status : TerraformStatus) → Returns (after_apply E observed args fuel status)
  unfolding after_apply
  after_apply-Returns status =
      Returns-if (status.state == "Failed") _ _ (λ h. tt)
        (Returns-catch
          (create_or_update_argo_cluster E.cluster E.backoff E.has_cluster_client "in-cluster"
            observed.spec.environment)
          _
          (create_or_update_argo_cluster-Returns E.cluster E.backoff "in-cluster"
            observed.spec.environment E.has_cluster_client)
          (λ _.
            Returns-if (observed.spec.post_deploy.script == "") _ _ (λ h. tt)
              (λ h. ground (arith, run_post_deploy-Returns h)))
          (λ e h. tt))

  -- ExecuteTerraform returns if the pods that it waits for end.
  pub execute_terraform-Returns :
      (finalizing : Bool) → Returns (execute_terraform E observed args finalizing fuel)
  unfolding execute_terraform
  execute_terraform-Returns true = run_destroy-Returns
  execute_terraform-Returns false =
      Returns-bind (run_apply E.cluster E.retry observed args fuel)
        (after_apply E observed args fuel) run_apply-Returns after_apply-Returns
