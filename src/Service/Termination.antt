-- ===== src/Service/Termination.antt =====
-- About RunService when the wait for the dependencies is given its timeout.
use alustan.Base.{
  ◌≡◌, ok, Option, none, some, StringMap, ◌==◌, ◌<>◌, if◌then◌else◌, String, Bool, true, false,
  List, [], ◌∷◌, Result, is_internal_error, arith, map_error, errorf,
}
use alustan.Value.{Fields}
use alustan.Cluster.{
  list_namespaces, wrap, get_secret, Cluster, M, call, pure, lift, get_secret,
  delete_application_set, create_application_set, apps, Returns, Returns-bind, Returns-if,
  Returns-catch, History,
}
use alustan.Types.{App}
use alustan.Kube.Retry.{Retry}
use alustan.Kube.PatSecret.{create_or_update_secret_with_pat}
use alustan.Kube.IngressUrls.{collect_urls, get_all_ingress_urls}
use alustan.Kube.Termination.{on_error-Returns, remove_finalizer-Returns}
use alustan.Service.Dependencies.{
  Signal, tick, timeout, check_health_and_sync, check_round, wait_rounds, wait_for_all_dependencies,
  distinct, extract_dependencies, check_dependent_services,
}
use alustan.Service.ApplicationSet.{
  Rendering, fetch_secret_annotations, fill_placeholders, apply_set, create_set, final_values,
  generators_of, application_set_of, apply_or_stop,
}
use alustan.Service.Placeholders.{convert_raw_extensions_to_interface}
use alustan.Service.Delete.{delete_set}
use alustan.Service.Run.{Environment, delete_or_apply, after_secret, run_service}
use alustan.Kube.Finalizer.{remove_finalizer}

-- The timeout is among the signals.
abbrev pub TimesOut : List Signal → Type 0
TimesOut [] = ⊥
TimesOut (timeout ∷ _) = Unit {0}
TimesOut (tick ∷ signals) = TimesOut signals

module _ (c : Cluster) where
  check_round-Returns : (deps : List String) (healthy : Bool) → Returns (check_round c deps healthy)
  unfolding check_round check_health_and_sync
  check_round-Returns [] healthy = λ h. tt
  check_round-Returns (dep ∷ deps) healthy =
      Returns-bind (check_health_and_sync c dep) _ (λ h. ground arith)
        λ b. check_round-Returns deps _

  wait_rounds-Returns :
      (deps : List String) (signals : List Signal)
      → TimesOut signals
      → Returns (wait_rounds c deps signals)
  unfolding wait_rounds
  wait_rounds-Returns deps [] over = absurd over
  wait_rounds-Returns deps (timeout ∷ signals) over = λ h. tt
  wait_rounds-Returns deps (tick ∷ signals) over =
      Returns-bind (check_round c deps true) _ (check_round-Returns deps true)
        λ all_healthy h. ground (arith, wait_rounds-Returns deps signals over h)

  collect_urls-Returns :
      (namespaces : List String) (urls : StringMap (List String))
      → Returns (collect_urls c namespaces urls)
  unfolding collect_urls
  collect_urls-Returns [] urls = λ h. tt
  collect_urls-Returns (namespace ∷ namespaces) urls =
      Returns-bind _ _ (λ h. ground arith) λ urls'. collect_urls-Returns namespaces urls'

  fill_placeholders-Returns :
      (T : Rendering) (environment : String) (values : Fields)
      → Returns (fill_placeholders c T environment values)
  unfolding fill_placeholders fetch_secret_annotations
  fill_placeholders-Returns T environment values h = ground arith

  create_pat-Returns :
      (namespace secret_name key pat : String) (base64 : String → Result String)
      → Returns (create_or_update_secret_with_pat c namespace secret_name key pat base64)
  unfolding create_or_update_secret_with_pat
  create_pat-Returns namespace secret_name key pat base64 h = ground arith

-- All values can be printed.
abbrev pub IsPrinting : Rendering → Type 0
IsPrinting T = (values : Fields) → (text : String) × (T.yaml values ≡ ok text)

module _ (c : Cluster) (R : Retry) (T : Rendering) (printing : IsPrinting T) (observed : App) where
  apply_set-Returns :
      (secret_name key latest_tag : String) (values : Fields)
      → Returns (apply_set c R T observed secret_name key latest_tag values)
  unfolding apply_set
  apply_set-Returns secret_name key latest_tag values h =
      rw printed (ground (arith, created true asked, created false asked))
    where
      helm_values : String
      helm_values =
          (printing (final_values observed.spec.preview_environment.enabled latest_tag values)).0

      printed :
          T.yaml (final_values observed.spec.preview_environment.enabled latest_tag values)
          ≡ ok helm_values
      printed =
          (printing (final_values observed.spec.preview_environment.enabled latest_tag values)).1

      asked : History
      asked = get_secret observed.metadata.namespace secret_name ∷ h

      created :
          (secret_exists : Bool)
          → Returns (
              R.on_error is_internal_error (
                call c.ack (
                  create_application_set (
                    application_set_of observed
                      (generators_of observed secret_name key secret_exists)
                      helm_values))))
      created secret_exists = on_error-Returns R is_internal_error _ (λ h. tt)

  filled_or_not :
      (secret_name key latest_tag : String) (filled : Option Fields)
      → Returns (apply_or_stop c R T observed secret_name key latest_tag filled)
  filled_or_not secret_name key latest_tag none = λ h. tt
  filled_or_not secret_name key latest_tag (some values) =
      apply_set-Returns secret_name key latest_tag values

  create_set-Returns :
      (secret_name key latest_tag : String)
      → Returns (create_set c R T observed secret_name key latest_tag)
  unfolding create_set
  create_set-Returns secret_name key latest_tag =
      Returns-bind
        (lift (
          map_error (errorf "failed to convert values: ")
            (convert_raw_extensions_to_interface T.unmarshal observed.spec.source.values)))
        _ (λ h. tt)
        λ converted.
          Returns-bind (fill_placeholders c T observed.spec.environment converted) _
            (fill_placeholders-Returns c T observed.spec.environment converted)
            (filled_or_not secret_name key latest_tag)

module _ (E : Environment) (observed : App) (signals : List Signal) (over : TimesOut signals)
    (printing : IsPrinting E.rendering) where
  delete_set-Returns : Returns (delete_set E.cluster E.retry E.objects E.get_name observed)
  unfolding delete_set check_dependent_services
  delete_set-Returns =
      Returns-catch (check_dependent_services E.get_name E.cluster observed) _ (λ h. ground arith)
        (λ found h. ground (arith, deleted h, removed (delete h).1)) (λ e h. tt)
    where
      delete : M (Unit {0})
      delete =
          E.retry.on_error is_internal_error
            (call E.cluster.ack (delete_application_set observed.metadata.name))

      deleted : Returns delete
      deleted = on_error-Returns E.retry is_internal_error _ (λ h. tt)

      removed : Returns (
          remove_finalizer E.cluster E.retry E.objects apps observed.metadata.name
            observed.metadata.namespace)
      removed =
          remove_finalizer-Returns E.cluster E.retry E.objects apps observed.metadata.name
            observed.metadata.namespace

  urls-Returns : Returns (get_all_ingress_urls E.cluster)
  unfolding get_all_ingress_urls
  urls-Returns =
      Returns-bind
        (wrap (errorf "failed to list namespaces: ") (call E.cluster.names list_namespaces)) _
        (λ h. ground arith) λ namespaces. collect_urls-Returns E.cluster namespaces []

  delete_or_apply-Returns :
      (secret_name latest_tag : String) (finalizing : Bool)
      → Returns (delete_or_apply E observed secret_name latest_tag finalizing signals)
  unfolding delete_or_apply wait_for_all_dependencies
  delete_or_apply-Returns secret_name latest_tag true = λ h. ground (arith, delete_set-Returns h)
  delete_or_apply-Returns secret_name latest_tag false =
      Returns-catch (wait_for_all_dependencies E.cluster (extract_dependencies observed) signals) _
        (wait_rounds-Returns E.cluster (distinct E.cluster (extract_dependencies observed)) signals
          over)
        (λ _.
          Returns-catch
            (create_set E.cluster E.retry E.rendering observed secret_name "pat" latest_tag) _
            (create_set-Returns E.cluster E.retry E.rendering printing observed secret_name "pat"
              latest_tag)
            (λ conditions.
              Returns-catch (get_all_ingress_urls E.cluster) _ urls-Returns (λ urls h. ground arith)
                (λ e h. tt))
            (λ e h. tt))
        (λ e h. tt)

  -- RunService returns when the wait for the dependencies is given its timeout.
  pub run_service-Returns :
      (latest_tag : String) (finalizing : Bool)
      → Returns (run_service E observed latest_tag finalizing signals)
  unfolding run_service
  run_service-Returns latest_tag finalizing =
      let secret_name = observed.metadata.name <> "-container-secret" in
      let pat = E.getenv "GITHUB_TOKEN" in
      Returns-catch
        (if pat == ""
          then pure tt
          else create_or_update_secret_with_pat E.cluster "argocd" secret_name "pat" pat E.base64)
        (after_secret E observed secret_name latest_tag finalizing signals)
        (Returns-if (pat == "") _ _ (λ h. tt)
          (create_pat-Returns E.cluster "argocd" secret_name "pat" pat E.base64))
        (λ _. delete_or_apply-Returns secret_name latest_tag finalizing) (λ e h. tt)
