-- ===== src/Service/ApplicationSet/Conditions.antt =====
-- The end of `CreateApplicationSet`: whose conditions become the health status.
pub mod Laws
use alustan.Base.{
  String, Bool, List, [], ◌∷◌, Result, ok, err, new_error, is_some, find?, starts_with, ltb, ◌&&◌,
  ◌==◌, if◌then◌else◌,
}
use alustan.Value.{Value}
use alustan.Cluster.{Application}

-- The applications whose names have the prefix of a preview.
unfoldable pub matched_apps : List Application → List Application
matched_apps [] = []
matched_apps (a ∷ items) =
    if starts_with a.name "preview-" && is_some (find? a.name "-")
    then a ∷ matched_apps items
    else matched_apps items

-- Sorting by creation time, the latest first: `sort.Slice`, which sorts by insertion up to twelve
-- elements; beyond that, its order of equal times is not specified.
unfoldable pub insert_by_time : Application → List Application → List Application
insert_by_time a [] = a ∷ []
insert_by_time a (b ∷ rest) =
    if ltb b.creation_timestamp a.creation_timestamp
    then a ∷ b ∷ rest
    else b ∷ insert_by_time a rest

unfoldable pub sort_onto : List Application → List Application → List Application
unfolding insert_by_time
sort_onto sorted [] = sorted
sort_onto sorted (a ∷ items) = sort_onto (insert_by_time a sorted) items

abbrev first_conditions : List Application → Result (List Value)
first_conditions [] = err (new_error "failed to find applications with prefix pattern: preview-")
first_conditions (a ∷ _) = ok a.conditions

-- The application of the exact name and namespace; without one the conditions are nil.
unfoldable pub exact_conditions : String → String → List Application → List Value
exact_conditions name namespace [] = []
exact_conditions name namespace (a ∷ items) =
    if (a.name == name) && (a.namespace == namespace)
    then a.conditions
    else exact_conditions name namespace items

unfoldable pub choose_conditions : Bool → String → String → List Application → Result (List Value)
unfolding matched_apps sort_onto exact_conditions
choose_conditions preview name namespace items =
    if preview
    then first_conditions (sort_onto [] (matched_apps items))
    else ok (exact_conditions name namespace items)
