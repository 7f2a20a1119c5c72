-- ===== src/Value.antt =====
-- The dynamic values of the program: Go's `interface{}` as `encoding/json` and the Kubernetes
-- unstructured objects fill it. A map is the list of its entries in the order in which one
-- `range` over it goes; nothing in the program depends on a number's value, so a number is kept
-- as its literal.
use alustan.Base.{
  eq_refl, String, Bool, Option, none, some, ◌==◌, ◌≡◌, refl, arith, eq_iff, if◌then◌else◌,
}

mutual
  -- `map[string]interface{}`
  pub data Fields : Type 0 where
    end : Fields
    field : String → Value → Fields → Fields

  -- `[]interface{}`
  pub data Items : Type 0 where
    nil : Items
    cons : Value → Items → Items

  pub data Value : Type 0 where
    null : Value
    boolean : Bool → Value
    number text : String → Value
    arr : Items → Value
    obj : Fields → Value

-- `v, ok := m[k]`
unfoldable pub get : String → Fields → Option Value
get k end = none
get k (field j v fs) = if j == k then some v else get k fs

-- `m[k] = v`
unfoldable pub put : String → Value → Fields → Fields
put k v end = field k v end
put k v (field j w fs) = if j == k then field k v fs else field j w (put k v fs)

-- `v.(map[string]interface{})`, `v.([]interface{})` and `v.(string)`, of a value that may be absent.
abbrev pub as_map : Option Value → Option Fields
as_map (some (obj fs)) = some fs
as_map _ = none

abbrev pub as_list : Option Value → Option Items
as_list (some (arr xs)) = some xs
as_list _ = none

abbrev pub as_text : Option Value → Option String
as_text (some (text s)) = some s
as_text _ = none

pub get-put :
    (k j : String) (v : Value) (fs : Fields)
    → get j (put k v fs) ≡ (if k == j then some v else get j fs)
unfolding get put
get-put k j v end = refl
get-put k j v (field i w fs) = ground (arith, eq_iff i k, eq_iff i j, eq_iff k j, get-put k j v fs)

pub put-put : (k : String) (v w : Value) (fs : Fields) → put k v (put k w fs) ≡ put k v fs
unfolding put
put-put k v w end = rw eq_refl
put-put k v w (field i x fs) = ground (arith, eq_iff i k, eq_refl k, put-put k v w fs)
