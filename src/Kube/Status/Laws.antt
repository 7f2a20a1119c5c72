-- ===== src/Kube/Status/Laws.antt =====
-- What a status update has written.
use alustan.Base.{
  is_conflict, String, true, Result, ok, err, Error, is_not_found, ◌≡◌, refl, ◌∷◌, ◌⊎◌, inl, inr,
  Result-cases, Bool-cases, arith,
}
use alustan.Value.{Fields}
use alustan.Cluster.{
  Cluster, Kind, apps, terraforms, History, returns, get_object, update_object_status,
}
use alustan.Types.{App, AppStatus, Terraform, TerraformStatus}
use alustan.Kube.Retry.{Retry, Converter, on_error-last}
use alustan.Kube.Status.{
  update_status_once, update_app_status, update_terraform_status, write_status, after_get,
}

-- From `h` on, the resource was read and found gone, or it was read as some object, and the object
-- of the same resource with the status set was sent to the status endpoint and acknowledged; `h'`
-- is what is left.
module _ (c : Cluster) {A : Type 0} (codec : Converter A) (set_status : A → A) (kind : Kind)
    (name namespace : String) where
  abbrev pub IsGone : History → History → Type 0
  IsGone h h' =
      (e : Error) × (c.object h (get_object kind namespace name) ≡ err e)
      × (is_not_found e ≡ true)
      × (h' ≡ get_object kind namespace name ∷ h)

  abbrev pub IsWritten : History → History → Type 0
  IsWritten h h' =
      (object object' : Fields) × (resource : A) × (c.object h (get_object kind namespace name)
        ≡ ok object)
      × (codec.from_unstructured object ≡ ok resource)
      × (codec.to_unstructured (set_status resource) ≡ ok object')
      × (c.ack (get_object kind namespace name ∷ h) (update_object_status kind namespace object')
          ≡ ok tt)
      × (h' ≡ update_object_status kind namespace object' ∷ get_object kind namespace name ∷ h)

  -- One of the two, from some history on.
  abbrev pub IsStored : History → Type 0
  IsStored h' = (h : History) × (IsGone h h' ⊎ IsWritten h h')

  write_status-IsWritten :
      (h : History) (object : Fields)
      → c.object h (get_object kind namespace name) ≡ ok object
      → let r =
          write_status c codec set_status kind namespace object
            (get_object kind namespace name ∷ h) in
        r.0 ≡ returns (ok tt) → IsWritten h r.1
  unfolding write_status
  write_status-IsWritten h object got p = elim (Result-cases (codec.from_unstructured object)) [
    | inr (e, r) ↦ absurd (ground arith)
    | inl (resource, r) ↦ elim (Result-cases (codec.to_unstructured (set_status resource))) [
      | inr (e, s) ↦ absurd (ground arith)
      | inl (object', s) ↦ (object, object', resource, got, r, s, ground arith, ground arith)
    ]
  ]

  after_get-ok :
      (h : History) (got : Result Fields)
      → c.object h (get_object kind namespace name) ≡ got
      → let r =
          after_get c codec set_status kind namespace got (get_object kind namespace name ∷ h) in
        r.0 ≡ returns (ok tt) → IsGone h r.1 ⊎ IsWritten h r.1
  unfolding after_get
  after_get-ok h (ok object) e p = inr (write_status-IsWritten h object e p)
  after_get-ok h (err x) e p = elim (Bool-cases (is_not_found x)) [
    | inl gone ↦ inl (x, e, gone, ground arith)
    | inr other ↦ absurd (ground arith)
  ]

  update_status_once-ok :
      (h : History)
      → (update_status_once c codec set_status kind name namespace h).0 ≡ returns (ok tt)
      → let h' = (update_status_once c codec set_status kind name namespace h).1 in
        IsGone h h' ⊎ IsWritten h h'
  unfolding update_status_once
  update_status_once-ok h = after_get-ok h (c.object h (get_object kind namespace name)) refl

  -- The last run of the retries, which returns an error unless one of these holds.
  retried_status-ok :
      (R : Retry) (h : History)
      → let r =
          R.on_error is_conflict (update_status_once c codec set_status kind name namespace) h in
        r.0 ≡ returns (ok tt) → IsStored r.1
  retried_status-ok R h p =
      let (h₁, _, ran) =
        on_error-last R is_conflict (update_status_once c codec set_status kind name namespace) h
          (λ _. Unit {0}) (λ _ _. tt) tt in
      (h₁, rw ran (update_status_once-ok h₁ (rw ran at p)))

-- When UpdateStatus of a Terraform resource returns nil, its last run read the resource, from some
-- history on, and either the server answered that it is gone and nothing was sent, or the resource
-- that was read then was sent back with its status replaced by the given one and all else kept,
-- and this was acknowledged.
pub update_terraform_status-ok :
    (c : Cluster) (R : Retry) (codec : Converter Terraform) (name namespace : String)
    (status : TerraformStatus) (h : History)
    → (update_terraform_status c R codec name namespace status h).0 ≡ returns (ok tt)
    → (h₁ : History) × (let h' = (update_terraform_status c R codec name namespace status h).1 in
        let set_status : Terraform → Terraform = λ t. record t { status = status } in
        IsGone c codec set_status terraforms name namespace h₁ h'
        ⊎ IsWritten c codec set_status terraforms name namespace h₁ h')
unfolding update_terraform_status
update_terraform_status-ok c R codec name namespace status =
    retried_status-ok c codec (λ t. record t { status = status }) terraforms name namespace R

-- The same of UpdateStatus of an App resource.
pub update_app_status-ok :
    (c : Cluster) (R : Retry) (codec : Converter App) (name namespace : String) (status : AppStatus)
    (h : History)
    → (update_app_status c R codec name namespace status h).0 ≡ returns (ok tt)
    → (h₁ : History) × (let h' = (update_app_status c R codec name namespace status h).1 in
        let set_status : App → App = λ a. record a { status = status } in
        IsGone c codec set_status apps name namespace h₁ h'
        ⊎ IsWritten c codec set_status apps name namespace h₁ h')
unfolding update_app_status
update_app_status-ok c R codec name namespace status =
    retried_status-ok c codec (λ a. record a { status = status }) apps name namespace R
