-- ===== src/Controller/Infra/Converged.antt =====
-- What a work item of the infrastructure controller that ends well has done.
use alustan.Base.{String, none, true, [], ◌∷◌, ok, ◌≡◌, refl, ap, ◌<◌, subst}
use alustan.Cluster.{History, returns, terraforms}
use alustan.Types.{Terraform, TerraformStatus}
use alustan.Kube.Retry.{Converter}
use alustan.Kube.Status.Laws.{IsStored, update_terraform_status-ok}
use alustan.Controller.Worker.{Cache, key, forget, done, process_resource, forgotten}
use alustan.Controller.Worker.Laws.{IsCached}
use alustan.Controller.Worker.Converged.{item-IsSynchronised, process_resource-observed}
use alustan.Controller.Infra.{
  Setup, handle_sync_request, terraform_resource, process_next_terraform,
}

module _ {V : Type 0} (E : Setup V) (codec : Converter Terraform) (cache : Cache) where
  -- The resource with this status, and its generation as the observed one.
  abbrev pub observed_with : Terraform → TerraformStatus → Terraform
  observed_with observed status = record observed {
    status = record status { observed_generation = observed.metadata.generation };
  }

  -- The resource is gone, or was read again and sent back with this status, which was
  -- acknowledged.
  abbrev pub IsRecorded : Terraform → TerraformStatus → History → Type 0
  IsRecorded observed status h' =
      let set_status : Terraform → Terraform =
        λ t. record t { status = (observed_with observed status).status } in
      IsStored E.services.cluster codec set_status terraforms observed.metadata.name
        observed.metadata.namespace h'

  -- When a newer generation of a resource was processed and its key was forgotten, the
  -- synchronisation has ended without an error, and then the resource was read again and sent back
  -- with its status, with this generation as the observed one, which was acknowledged, unless the
  -- resource was gone; and for the resource with that status the next item sends nothing and
  -- forgets the key, so that the registry is not asked again.
  pub process_next_terraform-converges :
      (k : String) (observed : Terraform) (h h' h'' : History)
      → IsCached (terraform_resource E codec) cache k observed
      → observed.status.observed_generation < observed.metadata.generation
      → process_next_terraform E codec cache (key k) h
        ≡ (returns (ok (true, forget ∷ done ∷ [])), h')
      → (status : TerraformStatus) × (h₁ : History) × (handle_sync_request E observed h
          ≡ (returns (ok (status, none)), h₁))
        × IsRecorded observed status h'
        × (process_resource (terraform_resource E codec) cache k (observed_with observed status) h''
            ≡ (returns (ok (forgotten none)), h''))
  unfolding process_next_terraform terraform_resource
  process_next_terraform-converges k observed h h' h'' cached newer p =
      let (status, (h₁, ran, other, written)) =
        item-IsSynchronised (terraform_resource E codec) cache k observed h h' cached newer p in
      let new_status = (observed_with observed status).status in
      let set_status : Terraform → Terraform = λ t. record t { status = new_status } in
      let name = observed.metadata.name in
      let namespace = observed.metadata.namespace in
      (
        status,
        h₁,
        ran,
        subst (IsStored E.services.cluster codec set_status terraforms name namespace)
            (ap (λ r. r.1) written)
            (update_terraform_status-ok E.services.cluster E.services.retry codec name namespace
              new_status h₁ (ap (λ r. r.0) written)),
        process_resource-observed (terraform_resource E codec) cache k
            (observed_with observed status) h'' refl,
      )
