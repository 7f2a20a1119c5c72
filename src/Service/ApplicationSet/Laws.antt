-- ===== src/Service/ApplicationSet/Laws.antt =====
-- What CreateApplicationSet has done when it returns without an error.
use alustan.Base.{
  ◌==◌, String, Bool, true, false, Option, none, some, List, [], ◌∷◌, Result, ok, err, Error,
  StringMap, ◌≡◌, refl, ap, subst, ◌⊎◌, inl, inr, Bool-cases, Result-cases, arith,
  is_internal_error,
}
use alustan.Value.{Value, Fields}
use alustan.Cluster.{
  or_exit, waiting, crashed, caught, continue, Request, Cluster, Secret, History, returns, Outcome,
  call, bind-run, get_secret, create_application_set,
}
use alustan.Types.{App}
use alustan.Kube.Retry.{Retry, on_error-last}
use alustan.Service.Placeholders.{
  fields_contain_placeholders, replace_workspace_values, convert_raw_extensions_to_interface,
}
use alustan.Service.ApplicationSet.Finished.{IsFinished, final_values-IsFinished}
use alustan.Service.ApplicationSet.{
  secret_missing, Rendering, with_annotations, fill_placeholders, fetch_secret_annotations,
  final_values, exists_or_raise, generators_of, application_set_of, apply_set, apply_or_stop,
  create_set,
}

abbrev pub is_found : Result Secret → Bool
is_found (ok _) = true
is_found (err _) = false

exists_or_raise-is_found :
    (r : Result Secret) (found : Bool) (h h' : History)
    → exists_or_raise r h ≡ (returns (ok found), h')
    → found ≡ is_found r
exists_or_raise-is_found (ok _) found h h' p = cc p
exists_or_raise-is_found (err e) found h h' p = ground arith

or_exit-ok :
    (r : Result String) (h : History) {text : String} {h' : History}
    → or_exit r h ≡ (returns (ok text), h')
    → (r ≡ ok text) × (h ≡ h')
or_exit-ok (ok _) h p = (cc p, ap (λ r. r.1) p)
or_exit-ok (err e) h p = absurd (cc p)

-- A request that is answered without an error, however often it was tried.
retried-ack :
    (R : Retry) (c : Cluster) (q : Request) (h h' : History)
    → R.on_error is_internal_error (call c.ack q) h ≡ (returns (ok tt), h')
    → (h₁ : History) × (c.ack h₁ q ≡ ok tt)
retried-ack R c q h h' p =
    let (h₁, _, same) =
      on_error-last R is_internal_error (call c.ack q) h (λ _. Unit {0}) (λ _ _. tt) tt in
    (h₁, cc (same, p))

module _ (c : Cluster) (R : Retry) (T : Rendering) (observed : App) where
  -- The values without placeholders are kept, those with some were put through the template.
  abbrev pub IsFilled : Fields → Fields → Type 0
  IsFilled values filled =
      ((fields_contain_placeholders values ≡ false) × (filled ≡ values))
      ⊎ ((annotations : StringMap String) × (replace_workspace_values
              (T.replace_placeholder annotations) values
            ≡ ok filled))

  -- The set with the finished values, and with a token for the secret if it was found, was sent to
  -- Argo CD, which acknowledged it.
  abbrev pub IsSent : String → String → String → Fields → Type 0
  IsSent secret_name key latest_tag filled =
      (final : Fields) × (helm_values : String) × (h₀ : History) × (h₁ : History) × IsFinished
        observed.spec.preview_environment.enabled latest_tag filled final
      × (T.yaml final ≡ ok helm_values)
      × (c.ack h₁ (
            create_application_set (
              application_set_of observed
                (generators_of observed secret_name key
                  (is_found (c.secret h₀ (get_secret observed.metadata.namespace secret_name))))
                helm_values))
          ≡ ok tt)

  apply_set-IsSent :
      (secret_name key latest_tag : String) (filled : Fields) (h h' : History)
      (conditions : List Value)
      → apply_set c R T observed secret_name key latest_tag filled h ≡ (returns (ok conditions), h')
      → IsSent secret_name key latest_tag filled
  unfolding apply_set
  apply_set-IsSent secret_name key latest_tag filled h h' conditions p =
      let q = get_secret observed.metadata.namespace secret_name in
      let final = final_values observed.spec.preview_environment.enabled latest_tag filled in
      let (helm_values, h₀, printed, e₀) = bind-run (or_exit (T.yaml final)) _ h p in
      let (rendered, here) = or_exit-ok (T.yaml final) h printed in
      let (found, h₂, seen, e₂) = bind-run (exists_or_raise (c.secret h₀ q)) _ (q ∷ h₀) e₀ in
      let same : found ≡ is_found (c.secret h₀ q) =
        exists_or_raise-is_found (c.secret h₀ q) found (q ∷ h₀) h₂ seen in
      let set = λ (b : Bool).
        application_set_of observed (generators_of observed secret_name key b) helm_values in
      let (u, h₃, sent, e₃) =
        bind-run (R.on_error is_internal_error (call c.ack (create_application_set (set found)))) _
          h₂ e₂ in
      let (h₄, acked) = retried-ack R c (create_application_set (set found)) h₂ h₃ sent in
      (
        final,
        helm_values,
        h₀,
        h₄,
        final_values-IsFinished observed.spec.preview_environment.enabled latest_tag filled,
        rendered,
        subst (λ b. c.ack h₄ (create_application_set (set b)) ≡ ok tt) same acked,
      )

  -- The annotations of the environment's secret were looked for, and there were none.
  abbrev pub LacksAnnotations : Type 0
  LacksAnnotations =
      (h : History) × (((fetch_secret_annotations c observed.spec.environment h).0
          ≡ returns (ok []))
        ⊎ ((e : Error) × ((fetch_secret_annotations c observed.spec.environment h).0
              ≡ returns (err e))
            × ((e.message == secret_missing observed.spec.environment) ≡ true)))

  abbrev FilledAs : Fields → Option Fields → Type 0
  FilledAs values none = (fields_contain_placeholders values ≡ true) × LacksAnnotations
  FilledAs values (some filled) = IsFilled values filled

  with_annotations-FilledAs :
      (values : Fields) (found : Option Fields) (h h' : History)
      → fields_contain_placeholders values ≡ true
      → (r : Outcome (StringMap String) × History)
      → fetch_secret_annotations c observed.spec.environment h ≡ r
      → continue (caught r.0) (with_annotations c T observed.spec.environment values) r.1
        ≡ (returns (ok found), h')
      → FilledAs values found
  with_annotations-FilledAs values found h h' some_there (returns (ok []), h₁) e q =
      let same : none ≡ found = cc q in
      subst (FilledAs values) same (some_there, (h, inl (ap (λ x. x.0) e)))
  with_annotations-FilledAs values found h h' some_there (returns (ok (a ∷ as_)), h₁) e q =
      elim (Result-cases (replace_workspace_values (T.replace_placeholder (a ∷ as_)) values)) [
        | inl (filled, x) ↦
            let same : some filled ≡ found = cc (rw x at q) in
            subst (FilledAs values) same (inr (a ∷ as_, x))
        | inr (y, x) ↦ absurd (cc (rw x at q))
      ]
  with_annotations-FilledAs values found h h' some_there (returns (err x), h₁) e q =
      elim (Bool-cases (x.message == secret_missing observed.spec.environment)) [
        | inl missing ↦
            let same : none ≡ found = cc (rw missing at q) in
            subst (FilledAs values) same (some_there, (h, inr (x, ap (λ y. y.0) e, missing)))
        | inr other ↦ absurd (cc (rw other at q))
      ]
  with_annotations-FilledAs values found h h' some_there (waiting, h₁) e q = absurd (cc q)
  with_annotations-FilledAs values found h h' some_there (crashed, h₁) e q = absurd (cc q)

  fill_placeholders-FilledAs :
      (values : Fields) (found : Option Fields) (h h' : History)
      → fill_placeholders c T observed.spec.environment values h ≡ (returns (ok found), h')
      → FilledAs values found
  unfolding fill_placeholders
  fill_placeholders-FilledAs values found h h' p =
      elim (Bool-cases (fields_contain_placeholders values)) [
        | inl some_there ↦
            with_annotations-FilledAs values found h h' some_there
              (fetch_secret_annotations c observed.spec.environment h) refl (rw some_there at p)
        | inr none_there ↦
            let same : some values ≡ found = cc (rw none_there at p) in
            subst (FilledAs values) same (inl (none_there, refl))
      ]

  -- The values were read, and either they have placeholders and there are no annotations to fill
  -- them from, or they were filled and the set was sent.
  abbrev pub IsApplied : String → String → String → Type 0
  IsApplied secret_name key latest_tag =
      (values : Fields) × (convert_raw_extensions_to_interface T.unmarshal
          observed.spec.source.values
        ≡ ok values)
      × (((fields_contain_placeholders values ≡ true) × LacksAnnotations)
          ⊎ ((filled : Fields) × IsFilled values filled × IsSent secret_name key latest_tag filled))

  apply_or_stop-IsSent :
      (secret_name key latest_tag : String) (values : Fields) (found : Option Fields)
      (h h' : History) (conditions : List Value)
      → FilledAs values found
      → apply_or_stop c R T observed secret_name key latest_tag found h
        ≡ (returns (ok conditions), h')
      → ((fields_contain_placeholders values ≡ true) × LacksAnnotations)
        ⊎ ((filled : Fields) × IsFilled values filled × IsSent secret_name key latest_tag filled)
  apply_or_stop-IsSent secret_name key latest_tag values none h h' conditions v p = inl v
  apply_or_stop-IsSent secret_name key latest_tag values (some filled) h h' conditions v p =
      inr (filled, v, apply_set-IsSent secret_name key latest_tag filled h h' conditions p)

  pub create_set-IsApplied :
      (secret_name key latest_tag : String) (h h' : History) (conditions : List Value)
      → create_set c R T observed secret_name key latest_tag h ≡ (returns (ok conditions), h')
      → IsApplied secret_name key latest_tag
  unfolding create_set
  create_set-IsApplied secret_name key latest_tag h h' conditions p =
      elim (Result-cases
        (convert_raw_extensions_to_interface T.unmarshal observed.spec.source.values)) [
          | inr (e, x) ↦ absurd (cc (rw x at p))
          | inl (values, x) ↦
              let (found, h₁, filled, sent) =
                bind-run (fill_placeholders c T observed.spec.environment values)
                  (apply_or_stop c R T observed secret_name key latest_tag) h (rw x at p) in
              (
                values,
                x,
                apply_or_stop-IsSent secret_name key latest_tag values found h₁ h' conditions
                    (fill_placeholders-FilledAs values found h h₁ filled) sent,
              )
        ]
