-- ===== src/Service/Placeholders/Laws.antt =====
-- About replaceWorkspaceValues of pkg/application/service/service.go.
use mathlib.Core.Path.{ap₂}
use alustan.Base.{
  ◌∙◌, String, ◌≡◌, refl, ap, List, [], ◌∷◌, ◌++◌, Result, ok, err, bind_result, arith,
}
use alustan.Value.{Value, Fields, null, boolean, number, text, arr, obj, end, field}
use alustan.Service.Placeholders.{replace_value, replace_workspace_values}

mutual
  -- The texts of the values in order, those in lists left out.
  pub texts_of : Value → List String
  texts_of (text s) = s ∷ []
  texts_of (obj fs) = texts fs
  texts_of _ = []

  pub texts : Fields → List String
  texts end = []
  texts (field k v fs) = texts_of v ++ texts fs

mutual
  -- What is left of the values when each of these texts is forgotten: the keys, the lists and all
  -- other values.
  pub shape_of : Value → Value
  shape_of (text s) = text ""
  shape_of (obj fs) = obj (shape fs)
  shape_of null = null
  shape_of (boolean b) = boolean b
  shape_of (number n) = number n
  shape_of (arr xs) = arr xs

  pub shape : Fields → Fields
  shape end = end
  shape (field k v fs) = field k (shape_of v) (shape fs)

-- Each text replaced, or the first error.
unfoldable pub replace_all : (String → Result String) → List String → Result (List String)
replace_all f [] = ok []
replace_all f (s ∷ ss) = bind_result (f s) λ r. bind_result (replace_all f ss) λ rest. ok (r ∷ rest)

module _ (f : String → Result String) where
  replace_all-append :
      (xs ys : List String)
      → replace_all f (xs ++ ys)
        ≡ bind_result (replace_all f xs) λ rx. bind_result (replace_all f ys) λ ry. ok (rx ++ ry)
  unfolding replace_all
  replace_all-append [] ys = ground arith
  replace_all-append (x ∷ xs) ys = ground (arith, replace_all-append xs ys)

  abbrev KeepsShape : Fields → Result Fields → Type 0
  KeepsShape fs (ok fs') = shape fs' ≡ shape fs
  KeepsShape fs (err _) = Unit {0}

  abbrev KeepsValueShape : Value → Result Value → Type 0
  KeepsValueShape v (ok v') = shape_of v' ≡ shape_of v
  KeepsValueShape v (err _) = Unit {0}

  text_shape :
      (s : String) (r : Result String) → KeepsValueShape (text s) (bind_result r λ t. ok (text t))
  unfolding shape_of
  text_shape s (ok t) = refl
  text_shape s (err e) = tt

  obj_shape :
      (fs : Fields) (r : Result Fields)
      → KeepsShape fs r
      → KeepsValueShape (obj fs) (bind_result r λ t. ok (obj t))
  unfolding shape_of
  obj_shape fs (ok t) h = ap obj h
  obj_shape fs (err e) h = tt

  field_shape :
      (k : String) (v : Value) (fs : Fields) (r : Result Value) (t : Result Fields)
      → KeepsValueShape v r
      → KeepsShape fs t
      → KeepsShape (field k v fs) (bind_result r λ v'. bind_result t λ fs'. ok (field k v' fs'))
  unfolding shape_of
  field_shape k v fs (ok v') (ok fs') h g = cc (h, g)
  field_shape k v fs (ok v') (err e) h g = tt
  field_shape k v fs (err e) t h g = tt

  text_texts :
      (r : Result String)
      → bind_result r (λ t. ok (t ∷ []))
        ≡ bind_result (bind_result r λ t. ok (text t)) λ v. ok (texts_of v)
  unfolding texts_of
  text_texts (ok t) = refl
  text_texts (err e) = refl

  obj_texts :
      (r : Result Fields)
      → bind_result r (λ t. ok (texts t))
        ≡ bind_result (bind_result r λ t. ok (obj t)) λ v. ok (texts_of v)
  unfolding texts_of
  obj_texts (ok t) = refl
  obj_texts (err e) = refl

  field_texts :
      (k : String) (r : Result Value) (t : Result Fields)
      → bind_result
          (bind_result r λ v. ok (texts_of v))
          (λ rx. bind_result (bind_result t λ fs. ok (texts fs)) λ ry. ok (rx ++ ry))
        ≡ bind_result (bind_result r λ v. bind_result t λ fs. ok (field k v fs)) λ fs. ok (texts fs)
  unfolding texts_of
  field_texts k (ok v) (ok fs) = refl
  field_texts k (ok v) (err e) = refl
  field_texts k (err e) t = refl

  mutual
    unfolding replace_value texts_of replace_all

    value_texts :
        (v : Value)
        → replace_all f (texts_of v) ≡ bind_result (replace_value f v) λ r. ok (texts_of r)
    value_texts (text s) = text_texts (f s)
    value_texts (obj fs) = fields_texts fs ∙ obj_texts (replace_workspace_values f fs)
    value_texts null = refl
    value_texts (boolean b) = refl
    value_texts (number n) = refl
    value_texts (arr xs) = refl

    fields_texts :
        (fs : Fields)
        → replace_all f (texts fs) ≡ bind_result (replace_workspace_values f fs) λ r. ok (texts r)
    fields_texts end = refl
    fields_texts (field k v fs) =
        replace_all-append (texts_of v) (texts fs)
        ∙ ap₂
            (λ (x y : Result (List String)). bind_result x λ rx. bind_result y λ ry. ok (rx ++ ry))
            (value_texts v) (fields_texts fs)
        ∙ field_texts k (replace_value f v) (replace_workspace_values f fs)

  mutual
    unfolding replace_value shape_of

    value_shape : (v : Value) → KeepsValueShape v (replace_value f v)
    value_shape (text s) = text_shape s (f s)
    value_shape (obj fs) = obj_shape fs (replace_workspace_values f fs) (fields_shape fs)
    value_shape null = refl
    value_shape (boolean b) = refl
    value_shape (number n) = refl
    value_shape (arr xs) = refl

    fields_shape : (fs : Fields) → KeepsShape fs (replace_workspace_values f fs)
    fields_shape end = refl
    fields_shape (field k v fs) =
        field_shape k v fs (replace_value f v) (replace_workspace_values f fs) (value_shape v)
          (fields_shape fs)

-- replaceWorkspaceValues puts every text outside the lists through the template, in order, and fails
-- with the first error among them.
pub replace_workspace_values-texts :
    (replace_placeholder : String → Result String) (values : Fields)
    → replace_all replace_placeholder (texts values)
      ≡ bind_result (replace_workspace_values replace_placeholder values) λ r. ok (texts r)
replace_workspace_values-texts = fields_texts

-- It changes nothing else: keys, nesting and scalars stay, and so does every list, with the
-- placeholders that are in it.
pub replace_workspace_values-shape :
    (replace_placeholder : String → Result String) (values values' : Fields)
    → replace_workspace_values replace_placeholder values ≡ ok values'
    → shape values' ≡ shape values
replace_workspace_values-shape f values values' p = rw p at (fields_shape f values)
