-- ===== src/Controller/Infra/Failed.antt =====
-- What handleSyncRequest of the infrastructure controller makes of a script that fails.
use alustan.Base.{String, false, none, ok, err, ◌≡◌, refl, ◌==◌, Bool-cases, inl, inr, eq_iff}
use alustan.Cluster.{History, Outcome, returns, waiting, crashed, IsReturned, IsNoError, bind-run}
use alustan.Types.{Terraform, TerraformStatus}
use alustan.Containers.RunPod.{pod_name_of}
use alustan.Containers.Termination.{PodsEnd}
use alustan.Terraform.Run.{run_apply}
use alustan.Terraform.Destroy.Laws.{NeverSucceeds}
use alustan.Terraform.Execute.{execute_terraform, after_apply}
use alustan.Terraform.Execute.Laws.{run_apply-IsDone}
use alustan.Controller.Infra.{Setup, merge_statuses, run_terraform}
use alustan.Controller.Infra.Laws.{run_terraform-NeverRaises}
use alustan.Controller.Infra.Termination.{run_terraform-Returns}
use alustan.Controller.Infra.Provisioned.{deploy_args}

-- An action that returns and reports its failures in its value has a value.
value_of :
    {A : Type 0} (r : Outcome A × History)
    → IsReturned r.0
    → IsNoError r.0
    → (a : A) × (r ≡ (returns (ok a), r.1))
value_of (returns (ok a), h) p q = (a, refl)
value_of (returns (err e), h) p q = absurd q
value_of (waiting, h) p q = absurd p
value_of (crashed, h) p q = absurd p

module _ {V : Type 0} (E : Setup V) (observed : Terraform) where
  -- No poll of the pod of the deploy script says that it succeeded.
  abbrev pub DeployNeverSucceeds : Type 0
  DeployNeverSucceeds =
      NeverSucceeds E.services.cluster observed.metadata.namespace
        (pod_name_of observed.metadata.name "deploy")

  run_apply-failed :
      (image : String) (h h' : History) (status : TerraformStatus)
      → DeployNeverSucceeds
      → run_apply E.services.cluster E.services.retry observed
          (deploy_args E observed image)
          E.fuel
          h
        ≡ (returns (ok status), h')
      → status.state ≡ "Failed"
  run_apply-failed image h h' status never p = elim (Bool-cases (status.state == "Failed")) [
    | inl bad ↦ (eq_iff status.state "Failed").0 bad
    | inr good ↦
        let (h₁, h₂, pod, _, _, _, seen, succeeded) =
          run_apply-IsDone E.services.cluster E.services.retry observed
            (deploy_args E observed image) E.fuel h h' status p good in
        absurd (never h₂ pod seen succeeded)
  ]

  execute_terraform-failed :
      (image : String) (h h' : History) (status : TerraformStatus)
      → DeployNeverSucceeds
      → execute_terraform E.services observed (deploy_args E observed image) false E.fuel h
        ≡ (returns (ok status), h')
      → status.state ≡ "Failed"
  unfolding execute_terraform after_apply
  execute_terraform-failed image h h' status never p =
      let args = deploy_args E observed image in
      let (applied, h₁, ran, after) =
        bind-run (run_apply E.services.cluster E.services.retry observed args E.fuel)
          (after_apply E.services observed args E.fuel) h p in
      let bad = run_apply-failed image h h₁ applied never ran in cc (rw bad at after)

  -- If every pod that is polled ends within the fuel, or its poll fails, and no poll of the pod of the
  -- deploy script says that it succeeded, then, whatever else is answered, the run of the script in
  -- handleSyncRequest comes to an end, and its result is the state "Failed" without an error.
  pub run_terraform-failed :
      (image : String) (common : TerraformStatus) (h : History)
      → PodsEnd E.services.cluster E.fuel
      → DeployNeverSucceeds
      → (status : TerraformStatus) × ((run_terraform E observed false observed.spec.scripts.deploy
            common image h).0
          ≡ returns (ok (status, none)))
        × (status.state ≡ "Failed")
  unfolding run_terraform merge_statuses
  run_terraform-failed image common h ends never =
      let args = deploy_args E observed image in
      let m = run_terraform E observed false observed.spec.scripts.deploy common image in
      let ((status, e), p) =
        value_of (m h)
          (run_terraform-Returns E ends observed false observed.spec.scripts.deploy common image h)
          (run_terraform-NeverRaises E observed false observed.spec.scripts.deploy common image
            h) in
      let (executed, h₁, ran, last) =
        bind-run (execute_terraform E.services observed args false E.fuel) _ h p in
      let bad = execute_terraform-failed image h h₁ executed never ran in
      (merge_statuses common executed, rw (ran, bad) refl, rw bad refl)
