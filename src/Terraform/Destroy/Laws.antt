-- ===== src/Terraform/Destroy/Laws.antt =====
-- About runDestroy of pkg/infrastructure/terraform/terraform.go and the finalizer.
use alustan.Base.{
  err, ◌==◌, Bool-cases, ◌∙◌, List-cases, zero, StringMap, inl, inr, Result-cases, suc, ℕ, String,
  ◌≡◌, refl, ◌≢◌, List, [], ◌∷◌, ok, arith,
}
use alustan.Cluster.{
  waiting, crashed, ◌>>=◌, try, Outcome, bind-ok, Keeps-bind, Cluster, Pod, succeeded, History,
  Request, returns, get_pod, update_object,
}
use alustan.Terraform.Destroy.{
  RunArgs, after_pod, Terraform, Unstructured, Retry, await_destroyed, run_destroy,
}
use alustan.Containers.RunPod.{pod_name_of, new_pod, create_or_update_run_pod, replace_pod}
use alustan.Containers.ServiceAccount.{create_service_account_and_roles}
use alustan.Containers.RunPod.Laws.{replace_pod-ok}
use alustan.Terraform.Run.{is_timeout, run_pod_with_retry}
use alustan.Kube.Retry.{on_error-last}

-- The writes of objects in a history, the last first.
abbrev pub object_writes : History → List Request
object_writes [] = []
object_writes (update_object kind namespace object ∷ h) =
    update_object kind namespace object ∷ object_writes h
object_writes (_ ∷ h) = object_writes h

-- No answer to a poll of the pod says that it succeeded.
abbrev pub NeverSucceeds : Cluster → String → String → Type 0
NeverSucceeds c namespace pod_name =
    (h : History) (pod : Pod)
    → c.pod h (get_pod namespace pod_name) ≡ ok pod
    → pod.phase ≢ succeeded

module _ (c : Cluster) (namespace pod_name : String) where
  -- Watching the pod writes no object.
  await_destroyed-writes :
      (fuel : ℕ) (h : History)
      → object_writes (await_destroyed c namespace pod_name fuel h).1 ≡ object_writes h
  unfolding await_destroyed
  await_destroyed-writes zero h = refl
  await_destroyed-writes (suc fuel) h =
      ground (arith, await_destroyed-writes fuel (get_pod namespace pod_name ∷ h))

  await_destroyed-fails :
      NeverSucceeds c namespace pod_name
      → (fuel : ℕ) (h : History) → (await_destroyed c namespace pod_name fuel h).0 ≢ returns (ok tt)
  unfolding await_destroyed
  await_destroyed-fails never zero h p = absurd (ground arith)
  await_destroyed-fails never (suc fuel) h p =
      elim (Result-cases (c.pod h (get_pod namespace pod_name))) [
        | inr (e, r) ↦ absurd (ground arith)
        | inl (pod, r) ↦
            ground (
              arith,
              never h pod,
              await_destroyed-fails never fuel (get_pod namespace pod_name ∷ h),
            )
      ]

module _ (c : Cluster) (namespace : String) where
  replace_pod-writes :
      (pod : Pod) (h : History) → object_writes (replace_pod c namespace pod h).1 ≡ object_writes h
  unfolding replace_pod
  replace_pod-writes pod h = elim (Result-cases (c.pod h (get_pod namespace pod.name))) [
    | inr (e, r) ↦ ground arith
    | inl (old, r) ↦ elim (List-cases old.finalizers) [
      | inl e ↦ ground arith
      | inr e ↦ ground arith
    ]
  ]

  replace_pod-name :
      (pod : Pod) (h : History) (name : String)
      → (replace_pod c namespace pod h).0 ≡ returns (ok name)
      → name ≡ pod.name
  replace_pod-name pod h name p = (replace_pod-ok c namespace pod h name p).0

  create_service_account_and_roles-writes :
      (name : String) (h : History)
      → object_writes (create_service_account_and_roles c name namespace h).1 ≡ object_writes h
  unfolding create_service_account_and_roles
  create_service_account_and_roles-writes name h = ground arith

module _ (c : Cluster) (name namespace script : String) (env : StringMap String)
    (image pull_secret app : String) where
  create_or_update_run_pod-writes :
      (h : History)
      → object_writes
          (create_or_update_run_pod c name namespace script env image pull_secret app h).1
        ≡ object_writes h
  unfolding create_or_update_run_pod
  create_or_update_run_pod-writes h =
      Keeps-bind {P = λ h'. object_writes h' ≡ object_writes h}
        (create_service_account_and_roles c name namespace) _
        (λ h' p. create_service_account_and_roles-writes c namespace name h' ∙ p)
        (λ account h' p.
          replace_pod-writes c namespace (new_pod name app account script env image pull_secret) h'
          ∙ p)
        h refl

  create_or_update_run_pod-name :
      (h : History) (pod_name : String)
      → (create_or_update_run_pod c name namespace script env image pull_secret app h).0
        ≡ returns (ok pod_name)
      → pod_name ≡ pod_name_of name app
  unfolding create_or_update_run_pod new_pod
  create_or_update_run_pod-name h pod_name p =
      let (account, h', ran, e) =
        bind-ok (create_service_account_and_roles c name namespace) _ h p in
      replace_pod-name c namespace (new_pod name app account script env image pull_secret) h'
        pod_name e

module _ (c : Cluster) (R : Retry) (U : Unstructured) (observed : Terraform) where
  -- Behind the pod's creation, nothing is written unless the pod is seen to succeed.
  after_pod-writes :
      (fuel : ℕ) (pod_name : String) (h : History)
      → NeverSucceeds c observed.metadata.namespace pod_name
      → object_writes (after_pod c R U observed fuel (ok pod_name) h).1 ≡ object_writes h
  after_pod-writes fuel pod_name h never = ground (
    arith,
    await_destroyed-writes c observed.metadata.namespace pod_name fuel h,
    await_destroyed-fails c observed.metadata.namespace pod_name never fuel h,
  )

  after_creation :
      (fuel : ℕ) (h : History)
      → NeverSucceeds c observed.metadata.namespace (pod_name_of observed.metadata.name "destroy")
      → (r : Outcome String × History) → object_writes r.1 ≡ object_writes h
      → ((pod_name : String)
          → r.0 ≡ returns (ok pod_name)
          → pod_name ≡ pod_name_of observed.metadata.name "destroy")
      → object_writes ((try (λ _. r) >>= after_pod c R U observed fuel) h).1 ≡ object_writes h
  after_creation fuel h never (returns (ok pod_name), h') same named =
      let e = named pod_name refl in after_pod-writes fuel pod_name h' (rw e never) ∙ same
  after_creation fuel h never (returns (err x), h') same named = same
  after_creation fuel h never (waiting, h') same named = same
  after_creation fuel h never (crashed, h') same named = same

  run_pod_with_retry-runs :
      (args : RunArgs) (app : String) (h : History)
      → (h' : History) × (object_writes h' ≡ object_writes h)
        × (run_pod_with_retry c R observed args app h
            ≡ create_or_update_run_pod c observed.metadata.name observed.metadata.namespace
                args.script_content args.env_vars args.tagged_image_name args.secret_name app h')
  unfolding run_pod_with_retry
  run_pod_with_retry-runs args app h =
      on_error-last R is_timeout _ h (λ h'. object_writes h' ≡ object_writes h)
        (λ h' p.
          create_or_update_run_pod-writes c observed.metadata.name observed.metadata.namespace
            args.script_content args.env_vars args.tagged_image_name args.secret_name app h'
          ∙ p)
        refl

  -- However often the creation of the destroy pod is tried and whatever fails: as long as no poll
  -- of that pod answers that it succeeded, runDestroy writes no object, so that the finalizer stays.
  pub run_destroy-keeps_finalizer :
      (args : RunArgs) (fuel : ℕ) (h : History)
      → NeverSucceeds c observed.metadata.namespace (pod_name_of observed.metadata.name "destroy")
      → object_writes (run_destroy c R U observed args fuel h).1 ≡ object_writes h
  unfolding run_destroy
  run_destroy-keeps_finalizer args fuel h never = elim (Bool-cases (args.script_content == "")) [
    | inl no_script ↦ rw no_script refl
    | inr script ↦
        let (h', same, ran) = run_pod_with_retry-runs args "destroy" h in
        rw (script, ran)
          (after_creation fuel h never
            (create_or_update_run_pod c observed.metadata.name observed.metadata.namespace
              args.script_content args.env_vars args.tagged_image_name args.secret_name "destroy"
              h')
            (create_or_update_run_pod-writes c observed.metadata.name observed.metadata.namespace
                args.script_content args.env_vars args.tagged_image_name args.secret_name "destroy"
                h'
              ∙ same)
            (create_or_update_run_pod-name c observed.metadata.name observed.metadata.namespace
              args.script_content args.env_vars args.tagged_image_name args.secret_name "destroy"
              h'))
  ]
