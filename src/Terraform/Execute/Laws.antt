-- ===== src/Terraform/Execute/Laws.antt =====
-- What it means that ExecuteTerraform reports completion.
use alustan.Base.{
  ◌∙◌, ℕ, String, true, false, none, some, List, ◌∷◌, ok, ◌≡◌, sym, ap, subst, ◌==◌, ◌⊎◌, inl, inr,
  Bool-cases, eq_iff, StringMap,
}
use alustan.Kube.ArgoCluster.Ensured.{IsEnsured, create_or_update_argo_cluster-ok}
use alustan.Cluster.{
  list_clusters, ArgoCluster, Cluster, Pod, succeeded, History, Outcome, returns, get_pod,
  create_pod, bind-run, try-run,
}
use alustan.Types.{Terraform, TerraformStatus}
use alustan.Kube.Retry.{Retry, on_error-last}
use alustan.Kube.ArgoCluster.{create_or_update_argo_cluster}
use alustan.Containers.ServiceAccount.{create_service_account_and_roles}
use alustan.Containers.RunPod.{pod_name_of, new_pod, create_or_update_run_pod}
use alustan.Containers.RunPod.Laws.{replace_pod-ok}
use alustan.Containers.Wait.{wait_for_pod_completion}
use alustan.Containers.Wait.Laws.{wait_for_pod-ok}
use alustan.Terraform.Run.{
  RunArgs, is_timeout, run_pod_with_retry, after_wait, after_pod, run_apply,
}
use alustan.Terraform.PostDeploy.{run_post_deploy}
use alustan.Terraform.Execute.{
  Services, after_post_deploy, after_argo, after_apply, execute_terraform,
}

module _ (c : Cluster) (R : Retry) (observed : Terraform) (args : RunArgs) where
  -- The pod of a script, as it is asked for with this service account.
  abbrev pub pod_of : String → String → Pod
  pod_of app account =
      new_pod observed.metadata.name app account args.script_content args.env_vars
        args.tagged_image_name args.secret_name

  -- The last request created this pod, and was acknowledged.
  abbrev pub IsCreated : String → History → Type 0
  IsCreated app h =
      (account : String) × (h₀ : History) × (c.ack h₀
          (create_pod observed.metadata.namespace (pod_of app account))
        ≡ ok tt)
      × (h ≡ create_pod observed.metadata.namespace (pod_of app account) ∷ h₀)

  create_run_pod-ok :
      (app pod_name : String) (h h' : History)
      → create_or_update_run_pod c observed.metadata.name observed.metadata.namespace
          args.script_content args.env_vars args.tagged_image_name args.secret_name app h
        ≡ (returns (ok pod_name), h')
      → (pod_name ≡ pod_name_of observed.metadata.name app) × IsCreated app h'
  unfolding create_or_update_run_pod new_pod
  create_run_pod-ok app pod_name h h' p =
      let (account, h₁, ran, e) =
        bind-run
          (create_service_account_and_roles c observed.metadata.name observed.metadata.namespace) _
          h p in
      let (named, (h₂, _, acked, sent)) =
        replace_pod-ok c observed.metadata.namespace (pod_of app account) h₁ pod_name
          (ap (λ r. r.0) e) in
      (named, (account, h₂, acked, ap (λ r. r.1) (sym e) ∙ sent))

  -- The pod of the script was created, and the wait for it ended on a poll that saw it succeeded,
  -- with this history.
  abbrev pub IsDone : String → ℕ → History → Type 0
  IsDone app fuel h' =
      let pod_name = pod_name_of observed.metadata.name app in
      (h₁ : History) × (h₂ : History) × (pod : Pod) × IsCreated app h₁
      × (wait_for_pod_completion c observed.metadata.namespace pod_name fuel h₁
          ≡ (returns (ok tt), h'))
      × (h' ≡ get_pod observed.metadata.namespace pod_name ∷ h₂)
      × (c.pod h₂ (get_pod observed.metadata.namespace pod_name) ≡ ok pod)
      × (pod.phase ≡ succeeded)

  waited-IsDone :
      (app : String) (fuel : ℕ) (h₁ h' : History)
      → IsCreated app h₁
      → wait_for_pod_completion c observed.metadata.namespace
          (pod_name_of observed.metadata.name app)
          fuel
          h₁
        ≡ (returns (ok tt), h')
      → IsDone app fuel h'
  waited-IsDone app fuel h₁ h' created waited =
      let (h₂, pod, seen, good, sent) =
        wait_for_pod-ok c observed.metadata.namespace (pod_name_of observed.metadata.name app) fuel
          h₁ (ap (λ r. r.0) waited) in
      (h₁, h₂, pod, created, waited, ap (λ r. r.1) (sym waited) ∙ sent, seen, good)

  retried-IsCreated :
      (app name : String) (h h₁ : History)
      → run_pod_with_retry c R observed args app h ≡ (returns (ok name), h₁)
      → (name ≡ pod_name_of observed.metadata.name app) × IsCreated app h₁
  unfolding run_pod_with_retry
  retried-IsCreated app name h h₁ p =
      let (h₀, _, last_run) = on_error-last R is_timeout _ h (λ _. Unit {0}) (λ _ _. tt) tt in
      create_run_pod-ok app name h₀ h₁ (sym last_run ∙ p)

  pub run_apply-IsDone :
      (fuel : ℕ) (h h' : History) (status : TerraformStatus)
      → run_apply c R observed args fuel h ≡ (returns (ok status), h')
      → (status.state == "Failed") ≡ false
      → IsDone "deploy" fuel h'
  unfolding run_apply
  run_apply-IsDone fuel h h' status p good =
      let (name, h₁, ran, after) =
        try-run (run_pod_with_retry c R observed args "deploy") (after_pod c R observed fuel) h
          (λ e h' q. cc (q, good)) p in
      let (tt₀, h₂, waited, same) =
        try-run (wait_for_pod_completion c observed.metadata.namespace name fuel)
          (after_wait c R observed) h₁ (λ e h' q. cc (q, good)) after in
      let (named, created) = retried-IsCreated "deploy" name h h₁ ran in
      waited-IsDone "deploy" fuel h₁ h' created (
        subst
          (λ n.
            wait_for_pod_completion c observed.metadata.namespace n fuel h₁ ≡ (returns (ok tt), h'))
          named (waited ∙ ap (λ (x : History). (returns (ok tt), x)) (ap (λ r. r.1) same)))

same_value :
    {A : Type 0} {a b : A} {h h' : History}
    → ◌≡◌ {A = Outcome A × History} (returns (ok a), h) (returns (ok b), h')
    → a ≡ b
same_value p = cc p

module _ (E : Services) (observed : Terraform) (args : RunArgs) where
  -- Some list of clusters was answered, and by it Argo CD has a cluster for the environment.
  abbrev pub IsRegistered : Type 0
  IsRegistered =
      (h : History) × (cls : List ArgoCluster) × (E.cluster.clusters h list_clusters ≡ ok cls)
      × IsEnsured E.cluster "in-cluster" observed.spec.environment h cls

  -- There is no post-deploy script, or it has returned the output of the status.
  abbrev pub IsPostDeployed : ℕ → TerraformStatus → Type 0
  IsPostDeployed fuel status =
      (((observed.spec.post_deploy.script == "") ≡ true) × (status.post_deploy_output ≡ none))
      ⊎ ((h : History) × (output : StringMap String) × ((run_post_deploy E.json E.cluster observed
              args fuel h).0
            ≡ returns (ok output))
          × (status.post_deploy_output ≡ some output))

  after_argo-IsPostDeployed :
      (fuel : ℕ) (h h' : History) (status : TerraformStatus)
      → after_argo E observed args fuel (ok tt) h ≡ (returns (ok status), h')
      → status.state ≡ "Completed"
      → IsPostDeployed fuel status
  after_argo-IsPostDeployed fuel h h' status p done =
      elim (Bool-cases (observed.spec.post_deploy.script == "")) [
        | inl no_script ↦
            inl (no_script, ap (λ s. s.post_deploy_output) (sym (same_value (rw no_script at p))))
        | inr script ↦
            let (output, h₁, ran, e) =
              try-run (run_post_deploy E.json E.cluster observed args fuel)
                (after_post_deploy E observed) h (λ x h₁ q. cc (q, done)) (rw script at p) in
            inr (h, output, ap (λ r. r.0) ran, ap (λ s. s.post_deploy_output) (sym (same_value e)))
      ]

  -- ExecuteTerraform reports completion of a resource that is not deleted only when the pod of the
  -- deploy script was created and then seen to succeed, Argo CD has a cluster for the environment,
  -- and the post-deploy script has returned the output of the status, if there is such a script.
  pub execute_terraform-completed :
      (fuel : ℕ) (h : History) (status : TerraformStatus)
      → (execute_terraform E observed args false fuel h).0 ≡ returns (ok status)
      → status.state ≡ "Completed"
      → (h' : History) × IsDone E.cluster E.retry observed args "deploy" fuel h'
        × IsRegistered
        × IsPostDeployed fuel status
  unfolding execute_terraform after_apply
  execute_terraform-completed fuel h status p done =
      let run = execute_terraform E observed args false fuel h in
      let p' : run ≡ (returns (ok status), run.1) = ap (λ o. (o, run.1)) p in
      let (applied, h₁, ran, after) =
        bind-run (run_apply E.cluster E.retry observed args fuel) (after_apply E observed args fuel)
          h p' in
      elim (Bool-cases (applied.state == "Failed")) [
        | inl bad ↦ absurd (
            cc (
              ap (λ s. s.state) (same_value (rw bad at after)),
              (eq_iff applied.state "Failed").0 bad,
              done,
            ))
        | inr good ↦
            let m =
              create_or_update_argo_cluster E.cluster E.backoff E.has_cluster_client "in-cluster"
                observed.spec.environment in
            let (u, h₂, registered, rest) =
              try-run m (after_argo E observed args fuel) h₁ (λ e h₂ q. cc (q, done))
                (rw good at after) in
            (
              h₁,
              run_apply-IsDone E.cluster E.retry observed args fuel h h₁ applied ran good,
              create_or_update_argo_cluster-ok E.cluster E.backoff E.has_cluster_client "in-cluster"
                  observed.spec.environment h₁ (ap (λ r. r.0) registered),
              after_argo-IsPostDeployed fuel h₂ _ status rest done,
            )
      ]
