-- ===== src/Tests/Service.antt =====
-- Examples for the values, the ingress hosts and the dependencies.
use alustan.Base.{
  ℕ, List, ◌==◌, if◌then◌else◌, refl, [], ◌∷◌, true, false, ok, Result, inl, ◌≡◌, String, none, map,
  Any, bind_result,
}
use alustan.Value.{Value, Fields, text, obj, arr, cons, nil, field, end}
use alustan.Cluster.{
  delete_application_set, Application, returns, Cluster, History, succeeded, apps, list_objects,
}
use alustan.Types.{app_status}
use alustan.Service.Placeholders.{
  contains_placeholders, matches_placeholder, placeholder_here, names_and_closes, closes,
}
use alustan.Service.Placeholders.Contains.{SomePlaceholder, contains_placeholders_iff}
use alustan.Service.Placeholders.{matches_placeholder, replace_workspace_values}
use alustan.Service.Placeholders.Laws.{
  replace_workspace_values-texts, replace_workspace_values-shape, texts, shape, replace_all,
}
use alustan.Service.ImageTag.{update_image_tag}
use alustan.Service.ImageTag.Laws.{update_image_tag-AllTagged, AllTagged}
use alustan.Service.Ingress.{modify_ingress_host}
use alustan.Service.Ingress.Laws.{modify_ingress_host-hosts, ingress_hosts, preview_host}
use alustan.Service.Dependencies.{
  check_health_and_sync, service_deps, check_round, dependents_among, wait_rounds, tick,
}
use alustan.Service.Dependencies.Laws.{DependsOn, wait_rounds-ok, RoundHealthy, asked}
use alustan.Service.Delete.{delete_set}
use alustan.Service.Delete.Laws.{delete_set-completed, delete_set-blocked}
use alustan.Tests.Fixtures.{healthy_app, calm, one_run, first_field, web, cluster_with}
use alustan.Kube.Finalizer.{remove_finalizer_once, remove_finalizer}

matches_placeholder_test : matches_placeholder "at {{.region}}" ≡ true
unfolding matches_placeholder
matches_placeholder_test = refl

no_placeholder_test : matches_placeholder "at {{.}} {{.region}" ≡ false
unfolding matches_placeholder
no_placeholder_test = refl

abbrev fill : String → Result String
fill s = if s == "{{.region}}" then ok "eu" else ok s

-- A text, a nested text, and a list that keeps its placeholder.
abbrev values : Fields
values = field "zone" (text "{{.region}}") (
    field "image" (obj (field "tag" (text "old") (field "name" (text "web") end))) (
      field "ingress"
        (obj (field "hosts" (arr (cons (obj (field "host" (text "a.io") end)) nil)) end))
        (field "zones" (arr (cons (text "{{.region}}") nil)) end)))

replace_workspace_values-texts_example :
    replace_all fill (texts values)
    ≡ bind_result (replace_workspace_values fill values) λ r. ok (texts r)
replace_workspace_values-texts_example = replace_workspace_values-texts fill values

abbrev filled : Fields
filled = field "zone" (text "eu") (
    field "image" (obj (field "tag" (text "old") (field "name" (text "web") end))) (
      field "ingress"
        (obj (field "hosts" (arr (cons (obj (field "host" (text "a.io") end)) nil)) end))
        (field "zones" (arr (cons (text "{{.region}}") nil)) end)))

replace_workspace_values-shape_example : shape filled ≡ shape values
unfolding replace_workspace_values
replace_workspace_values-shape_example = replace_workspace_values-shape fill values filled refl

update_image_tag-AllTagged_example : AllTagged "v1" (update_image_tag "v1" values)
update_image_tag-AllTagged_example = update_image_tag-AllTagged "v1" values

modify_ingress_host-hosts_example :
    ingress_hosts (modify_ingress_host true "pr" values)
    ≡ map (preview_host "pr") (ingress_hosts values)
modify_ingress_host-hosts_example = modify_ingress_host-hosts "pr" values

-- An app that depends on the app "shop".
abbrev dependent : Fields
dependent =
    field "spec"
      (obj (
        field "dependencies"
          (obj (field "service" (arr (cons (obj (field "name" (text "shop") end)) nil)) end)) end))
      end

abbrev named_other : Fields → String
named_other o = "other"

wait_rounds-ok_example :
    (h' : History) × RoundHealthy calm ("db" ∷ []) h'
    × ((wait_rounds calm ("db" ∷ []) (tick ∷ []) []).1 ≡ asked calm ("db" ∷ []) h')
unfolding wait_rounds check_round check_health_and_sync
wait_rounds-ok_example = wait_rounds-ok calm ("db" ∷ []) (tick ∷ []) [] refl

abbrev depended : Cluster
depended = cluster_with (ok tt) succeeded [] (dependent ∷ [])

delete_set-blocked_example : delete_set depended one_run first_field named_other web [] ≡ (
  returns (ok (app_status "Blocked" "Service has dependent services, cannot delete", none)),
  list_objects apps "default" ∷ [],
)
unfolding service_deps
delete_set-blocked_example =
    delete_set-blocked depended one_run first_field named_other web [] (dependent ∷ []) refl
      (inl (inl refl))

-- Two previews and another application.
abbrev preview_at : String → ℕ → Application
preview_at name time = record healthy_app { name = name; creation_timestamp = time }

abbrev previews : List Application
previews = preview_at "preview-a-1" 5 ∷ preview_at "web" 9 ∷ preview_at "preview-b-2" 7 ∷ []

-- A placeholder in a list inside a map.
abbrev nested_values : Value
nested_values = obj (field "env" (arr (cons (text "a{{.b}}c") nil)) end)

contains_placeholders_iff_example :
    (contains_placeholders nested_values ≡ true → SomePlaceholder nested_values)
    × (SomePlaceholder nested_values → contains_placeholders nested_values ≡ true)
contains_placeholders_iff_example = contains_placeholders_iff nested_values

contains_placeholders_test :
    (contains_placeholders nested_values ≡ true)
    × (contains_placeholders (text "{{.}} {{.a} }") ≡ false)
unfolding contains_placeholders matches_placeholder placeholder_here names_and_closes closes
contains_placeholders_test = (refl, refl)

-- No app is listed, and the object has no finalizer left.
delete_set-completed_example :
    ((items : List Fields) × (calm.objects [] (list_objects apps "default") ≡ ok items)
      × (¬ Any (DependsOn "shop") items))
    × ((h' : History) × (calm.ack h' (delete_application_set "shop") ≡ ok tt))
    × ((h' : History) × ((remove_finalizer calm one_run first_field apps "shop" "default" h').0
          ≡ returns (ok tt)))
unfolding delete_set dependents_among remove_finalizer remove_finalizer_once
delete_set-completed_example = delete_set-completed calm one_run first_field named_other web [] refl
