-- ===== src/Containers/Termination.antt =====
-- About the actions of pkg/containers, which come to an end.
use alustan.Base.{
  ◌∷◌, is_some, true, Option-cases, Result-cases, inl, inr, is_already_exists, ok, err, ◌≡◌, ℕ, ◌<◌,
  String, StringMap, Result, arith,
}
use alustan.Cluster.{
  ◌>>=◌, call, create_secret, try, pure, lift, Returns-if, get_secret, Secret, Cluster, Pod,
  Returns, Returns-bind, History,
}
use alustan.Value.{Fields}
use alustan.Cluster.{get_pod}
use alustan.Containers.Wait.{wait_for_pod_completion, extract_post_deploy_output}
use alustan.Containers.Wait.Laws.{IsFinal, polled, wait_for_pod-returns}
use alustan.Containers.ServiceAccount.{create_service_account_and_roles}
use alustan.Containers.RunPod.{replace_pod, create_or_update_run_pod, new_pod}
use alustan.Containers.DockerSecret.{
  docker_secret, decode_config, Decoding, refresh, after_create, create_docker_config_secret,
}

module _ (c : Cluster) where
  create_service_account_and_roles-Returns :
      (name namespace : String) → Returns (create_service_account_and_roles c name namespace)
  unfolding create_service_account_and_roles
  create_service_account_and_roles-Returns name namespace h = ground arith

  replace_pod-Returns : (namespace : String) (pod : Pod) → Returns (replace_pod c namespace pod)
  unfolding replace_pod
  replace_pod-Returns namespace pod h = ground arith

  -- Every secret that the server answers with has data.
  abbrev pub SecretsHaveData : Type 0
  SecretsHaveData =
      (namespace name : String) (h : History) (secret : Secret)
      → c.secret h (get_secret namespace name) ≡ ok secret
      → is_some secret.content ≡ true

  refresh-Returns :
      (secret_name namespace decoded : String) (existing : Secret)
      → is_some existing.content ≡ true
      → Returns (refresh c secret_name namespace existing decoded)
  unfolding refresh
  refresh-Returns secret_name namespace decoded existing filled h =
      elim (Option-cases existing.content) [
        | inl none_there ↦ absurd (ground arith)
        | inr (content, e) ↦ ground arith
      ]

  after_create-Returns :
      SecretsHaveData
      → (secret_name namespace decoded : String) (r : Result (Unit {0}))
      → Returns (after_create c secret_name namespace decoded r)
  after_create-Returns filled secret_name namespace decoded (ok _) = λ h. tt
  after_create-Returns filled secret_name namespace decoded (err e) =
      Returns-if (is_already_exists e) _ _
        (λ h. elim (Result-cases (c.secret h (get_secret namespace secret_name))) [
          | inr (x, p) ↦ rw p tt
          | inl (existing, p) ↦ rw p (
              refresh-Returns secret_name namespace decoded existing
                (filled namespace secret_name h existing p) (get_secret namespace secret_name ∷ h))
        ])
        (λ h. tt)

  pub create_docker_config_secret-Returns :
      SecretsHaveData
      → (secret_name namespace : String) (D : Decoding) (encoded : String)
      → Returns (create_docker_config_secret c secret_name namespace D encoded)
  unfolding create_docker_config_secret
  create_docker_config_secret-Returns filled secret_name namespace D encoded =
      Returns-bind {A = String × (String × String)} {B = String × String}
        (lift (decode_config D encoded)) _ (λ h. tt)
        λ r.
          Returns-bind {A = Result (Unit {0})} {B = String × String}
            (try (call c.ack (create_secret namespace (docker_secret c secret_name namespace r.0))))
            (λ created. after_create c secret_name namespace r.0 created >>= λ _. pure r.1)
            (λ h. tt {0})
            λ created.
              Returns-bind {A = Unit {0}} {B = String × String}
                (after_create c secret_name namespace r.0 created) (λ _. pure r.1)
                (after_create-Returns filled secret_name namespace r.0 created) (λ u h. tt {0})

  pub create_or_update_run_pod-Returns :
      (name namespace script_name : String) (env_vars : StringMap String)
      (image pull_secret app : String)
      → Returns
          (create_or_update_run_pod c name namespace script_name env_vars image pull_secret app)
  unfolding create_or_update_run_pod
  create_or_update_run_pod-Returns name namespace script_name env_vars image pull_secret app =
      Returns-bind (create_service_account_and_roles c name namespace) _
        (create_service_account_and_roles-Returns name namespace)
        λ account.
          replace_pod-Returns namespace
            (new_pod name app account script_name env_vars image pull_secret)

  -- Whenever a pod is polled, one of fewer than `fuel` further polls sees it ended, or fails.
  abbrev pub PodsEnd : ℕ → Type 0
  PodsEnd fuel =
      (namespace pod_name : String) (h : History)
      → (n : ℕ) × (n < fuel)
        × IsFinal c namespace pod_name
            (c.pod (polled c namespace pod_name n h) (get_pod namespace pod_name))

  pub wait_for_pod_completion-Returns :
      (fuel : ℕ)
      → PodsEnd fuel
      → (namespace pod_name : String) → Returns (wait_for_pod_completion c namespace pod_name fuel)
  wait_for_pod_completion-Returns fuel ends namespace pod_name h =
      let (n, lt, final) = ends namespace pod_name h in
      wait_for_pod-returns c namespace pod_name n fuel h final lt

  pub extract_post_deploy_output-Returns :
      (fuel : ℕ)
      → PodsEnd fuel
      → (namespace pod_name : String) (unmarshal : String → Result Fields)
      → Returns (extract_post_deploy_output c namespace pod_name unmarshal fuel)
  unfolding extract_post_deploy_output
  extract_post_deploy_output-Returns fuel ends namespace pod_name unmarshal h =
      ground (arith, wait_for_pod_completion-Returns fuel ends namespace pod_name h)
