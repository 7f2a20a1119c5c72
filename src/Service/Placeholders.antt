-- ===== src/Service/Placeholders.antt =====
-- `containsPlaceholders`, `replaceWorkspaceValues` and `convertRawExtensionsToInterface`.
pub mod Laws
pub mod Pattern
pub mod Contains
use alustan.Base.{
  String, Bool, false, ◌||◌, ◌&&◌, Result, ok, errorf, StringMap, [], ◌∷◌, bind_result, map_error,
  starts_with, ◌==◌, ◌<>◌, if◌then◌else◌,
}
use alustan.Value.{
  Value, Items, Fields, null, boolean, number, text, arr, obj, nil, cons, end, field,
}

-- Behind "{{." and at least one character: more characters other than '}', then "}}".
unfoldable pub closes : String → Bool
closes String.[] = false
closes (String.◌∷◌ ch s) =
    let rest = closes s in if String.◌∷◌ ch String.[] == "}" then starts_with s "}" else rest

-- `[^}]+\}\}` at the start of the text.
unfoldable pub names_and_closes : String → Bool
unfolding closes
names_and_closes String.[] = false
names_and_closes (String.◌∷◌ ch s) = if String.◌∷◌ ch String.[] == "}" then false else closes s

-- `\{\{\.[^}]+\}\}` at the start of the text.
unfoldable pub placeholder_here : String → Bool
unfolding names_and_closes
placeholder_here (String.◌∷◌ a (String.◌∷◌ b (String.◌∷◌ d s))) =
    (String.◌∷◌ a (String.◌∷◌ b (String.◌∷◌ d String.[])) == "{{.") && names_and_closes s
placeholder_here _ = false

-- `MatchString`: a match at any position.
unfoldable pub matches_placeholder : String → Bool
unfolding placeholder_here
matches_placeholder String.[] = false
matches_placeholder (String.◌∷◌ ch s) = placeholder_here (String.◌∷◌ ch s) || matches_placeholder s

-- `containsPlaceholders`
unfoldable mutual
  pub contains_placeholders : Value → Bool
  contains_placeholders (text s) = matches_placeholder s
  contains_placeholders (arr xs) = items_contain_placeholders xs
  contains_placeholders (obj fs) = fields_contain_placeholders fs
  contains_placeholders _ = false

  pub items_contain_placeholders : Items → Bool
  items_contain_placeholders nil = false
  items_contain_placeholders (cons x xs) = contains_placeholders x || items_contain_placeholders xs

  pub fields_contain_placeholders : Fields → Bool
  fields_contain_placeholders end = false
  fields_contain_placeholders (field k v fs) =
      contains_placeholders v || fields_contain_placeholders fs

-- `replaceWorkspaceValues`, where `replace_placeholder` is Go's `text/template` at the annotations.
module _ (replace_placeholder : String → Result String) where
  unfoldable mutual
    pub replace_value : Value → Result Value
    replace_value (text s) = bind_result (replace_placeholder s) λ r. ok (text r)
    replace_value (obj fs) = bind_result (replace_workspace_values fs) λ r. ok (obj r)
    replace_value null = ok null
    replace_value (boolean b) = ok (boolean b)
    replace_value (number n) = ok (number n)
    replace_value (arr xs) = ok (arr xs)

    pub replace_workspace_values : Fields → Result Fields
    replace_workspace_values end = ok end
    replace_workspace_values (field key value fs) =
        bind_result (replace_value value)
          λ v. bind_result (replace_workspace_values fs) λ rest. ok (field key v rest)

-- `convertRawExtensionsToInterface`, where `unmarshal` is `json.Unmarshal`.
unfoldable pub convert_raw_extensions_to_interface :
    (String → Result Value) → StringMap String → Result Fields
convert_raw_extensions_to_interface unmarshal [] = ok end
convert_raw_extensions_to_interface unmarshal ((key, raw) ∷ values) =
    bind_result
      (map_error (errorf ("error decoding value for key " <> key <> ": ")) (unmarshal raw))
      λ v.
        bind_result (convert_raw_extensions_to_interface unmarshal values)
          λ rest. ok (field key v rest)
