-- ===== src/Service/Ingress/Laws.antt =====
-- Which hosts modifyIngressHost changes, and how.
use alustan.Base.{
  ◌<>◌, ◌∙◌, inr, inl, ◌==◌, Option-cases, String, Bool, true, false, ◌≡◌, refl, ap, List, [], ◌∷◌,
  ◌++◌, map, Option, none, some,
}
use mathlib.Core.List.{map-append}
use mathlib.Core.Path.{fun_ext}
use alustan.Value.{
  Value, Items, Fields, null, boolean, number, text, arr, obj, nil, cons, end, field, get, get-put,
}
use alustan.Service.Ingress.{
  new_host, modify_host_item, modify_host_items, modify_entry, modify_ingress_map, modify_value,
  modify_ingress_host,
}

abbrev optional : Option Value → List Value
optional none = []
optional (some v) = v ∷ []

abbrev item_hosts : Value → List Value
item_hosts (obj host_map) = optional (get "host" host_map)
item_hosts _ = []

abbrev pub items_hosts : Items → List Value
items_hosts nil = []
items_hosts (cons x xs) = item_hosts x ++ items_hosts xs

abbrev entry_hosts : Bool → Value → List Value
entry_hosts true (arr xs) = items_hosts xs
entry_hosts _ _ = []

abbrev pub ingress_map_hosts : Fields → List Value
ingress_map_hosts end = []
ingress_map_hosts (field key value fs) = entry_hosts (key == "hosts") value ++ ingress_map_hosts fs

mutual
  -- The hosts of all ingress maps, at any depth of maps.
  pub ingress_hosts : Fields → List Value
  ingress_hosts end = []
  ingress_hosts (field key value fs) = value_hosts (key == "ingress") value ++ ingress_hosts fs

  value_hosts : Bool → Value → List Value
  value_hosts true (obj fs) = ingress_map_hosts fs
  value_hosts false (obj fs) = ingress_hosts fs
  value_hosts _ _ = []

module _ (preview : Bool) (prefix : String) where
  abbrev changed : Value → Value
  changed v = text (new_host preview prefix v)

  item_hosts_lem :
      (v : Value) → item_hosts (modify_host_item preview prefix v) ≡ map changed (item_hosts v)
  unfolding modify_host_item
  item_hosts_lem (obj m) = elim (Option-cases (get "host" m)) [
    | inl e ↦ rw (e, e) refl
    | inr (v, e) ↦ rw (e, get-put) refl
  ]
  item_hosts_lem null = refl
  item_hosts_lem _ = refl

  items_hosts_lem :
      (xs : Items)
      → items_hosts (modify_host_items preview prefix xs) ≡ map changed (items_hosts xs)
  unfolding modify_host_items
  items_hosts_lem nil = refl
  items_hosts_lem (cons x xs) = simp (map-append, item_hosts_lem x, items_hosts_lem xs)

  entry_hosts_lem :
      (b : Bool) (v : Value)
      → entry_hosts b (modify_entry preview prefix b v) ≡ map changed (entry_hosts b v)
  entry_hosts_lem true (arr xs) = items_hosts_lem xs
  entry_hosts_lem true null = refl
  entry_hosts_lem true (boolean b) = refl
  entry_hosts_lem true (number n) = refl
  entry_hosts_lem true (text s) = refl
  entry_hosts_lem true (obj fs) = refl
  entry_hosts_lem false v = refl

  ingress_map_hosts_lem :
      (fs : Fields)
      → ingress_map_hosts (modify_ingress_map preview prefix fs)
        ≡ map changed (ingress_map_hosts fs)
  unfolding modify_ingress_map
  ingress_map_hosts_lem end = refl
  ingress_map_hosts_lem (field k v fs) =
      simp (map-append, entry_hosts_lem (k == "hosts") v, ingress_map_hosts_lem fs)

  mutual
    unfolding modify_value ingress_hosts

    value_hosts_lem :
        (b : Bool) (v : Value)
        → value_hosts b (modify_value preview prefix b v) ≡ map changed (value_hosts b v)
    value_hosts_lem true (obj fs) = ingress_map_hosts_lem fs
    value_hosts_lem false (obj fs) = hosts_lem fs
    value_hosts_lem true (arr xs) = refl
    value_hosts_lem false (arr xs) = refl
    value_hosts_lem true null = refl
    value_hosts_lem false null = refl
    value_hosts_lem true (boolean b) = refl
    value_hosts_lem false (boolean b) = refl
    value_hosts_lem true (number n) = refl
    value_hosts_lem false (number n) = refl
    value_hosts_lem true (text s) = refl
    value_hosts_lem false (text s) = refl

    hosts_lem :
        (fs : Fields)
        → ingress_hosts (modify_ingress_host preview prefix fs) ≡ map changed (ingress_hosts fs)
    hosts_lem end = refl
    hosts_lem (field k v fs) = simp (map-append, value_hosts_lem (k == "ingress") v, hosts_lem fs)

-- The host that a preview gives: a text gets the prefix and a dash in front, and a host of any
-- other type becomes the empty text.
abbrev pub preview_host : String → Value → Value
preview_host prefix (text host) = text (prefix <> "-" <> host)
preview_host prefix _ = text ""

preview_host_lem : (prefix : String) (v : Value) → changed true prefix v ≡ preview_host prefix v
preview_host_lem prefix (text s) = refl
preview_host_lem prefix _ = refl

-- For a preview, modifyIngressHost turns every host of every ingress map, at any depth of maps, into
-- its preview host; there are as many hosts as before, in the same order.
pub modify_ingress_host-hosts :
    (prefix : String) (values : Fields)
    → ingress_hosts (modify_ingress_host true prefix values)
      ≡ map (preview_host prefix) (ingress_hosts values)
modify_ingress_host-hosts prefix values =
    hosts_lem true prefix values
    ∙ ap (λ f. map f (ingress_hosts values)) (fun_ext (preview_host_lem prefix))
