-- ===== src/Service/Ingress.antt =====
-- `modifyIngressHost`: under every key "ingress" the hosts are prefixed. The code writes into the
-- host maps that it is given; the values that it is given are not used again.
pub mod Laws
use alustan.Base.{String, Bool, true, false, Option, none, some, ◌==◌, ◌<>◌, if◌then◌else◌}
use alustan.Value.{
  Value, Items, Fields, null, boolean, number, text, arr, obj, nil, cons, end, field, get, put,
}

-- The new host: a host that is no text becomes the empty text.
abbrev new_host : Bool → String → Value → String
new_host preview prefix (text s) = if preview then prefix <> "-" <> s else s
new_host preview prefix _ = ""

abbrev set_host : Bool → String → Fields → Option Value → Fields
set_host preview prefix host_map none = host_map
set_host preview prefix host_map (some host) =
    put "host" (text (new_host preview prefix host)) host_map

unfoldable pub modify_host_item : Bool → String → Value → Value
unfolding get put
modify_host_item preview prefix (obj host_map) =
    obj (set_host preview prefix host_map (get "host" host_map))
modify_host_item preview prefix other = other

unfoldable pub modify_host_items : Bool → String → Items → Items
unfolding modify_host_item
modify_host_items preview prefix nil = nil
modify_host_items preview prefix (cons x xs) =
    cons (modify_host_item preview prefix x) (modify_host_items preview prefix xs)

-- One entry of the ingress map.
abbrev modify_entry : Bool → String → Bool → Value → Value
modify_entry preview prefix true (arr xs) = arr (modify_host_items preview prefix xs)
modify_entry preview prefix is_hosts value = value

unfoldable pub modify_ingress_map : Bool → String → Fields → Fields
unfolding modify_host_items
modify_ingress_map preview prefix end = end
modify_ingress_map preview prefix (field key value fs) =
    field key (modify_entry preview prefix (key == "hosts") value)
      (modify_ingress_map preview prefix fs)

unfoldable mutual
  pub modify_value : Bool → String → Bool → Value → Value
  modify_value preview prefix true (obj fs) = obj (modify_ingress_map preview prefix fs)
  modify_value preview prefix false (obj fs) = obj (modify_ingress_host preview prefix fs)
  modify_value preview prefix is_ingress null = null
  modify_value preview prefix is_ingress (boolean b) = boolean b
  modify_value preview prefix is_ingress (number n) = number n
  modify_value preview prefix is_ingress (text s) = text s
  modify_value preview prefix is_ingress (arr xs) = arr xs

  -- `modifyIngressHost`
  pub modify_ingress_host : Bool → String → Fields → Fields
  modify_ingress_host preview prefix end = end
  modify_ingress_host preview prefix (field key value fs) =
      field key (modify_value preview prefix (key == "ingress") value)
        (modify_ingress_host preview prefix fs)
