-- ===== src/Kube/Retry.antt =====
-- `k8s.io/client-go/util/retry`, a library that the program calls: a parameter with its documented
-- behaviour.
use alustan.Base.{String, Error, Bool, true, false, ◌≡◌, refl, Result, ok, err, List}
use alustan.Value.{Fields}
use alustan.Cluster.{M, History, Outcome, returns}

-- The runs that a retry may be made of: the action once, or once with a retriable error and then
-- a retry again.
pub data Attempts {A : Type 0} (retriable : Error → Bool) (m : M A)
    : History → Outcome A × History → Type 0 where
  last : (h : History) → Attempts retriable m h (m h)
  again :
      (h : History) (e : Error) {r : Outcome A × History}
      → (m h).0 ≡ returns (err e)
      → retriable e ≡ true
      → Attempts retriable m (m h).1 r
      → Attempts retriable m h r

-- `retry.OnError(retry.DefaultRetry, retriable, fn)`; `retry.RetryOnConflict` is its instance at
-- `errors.IsConflict`. The error that it returns is that of the last run.
pub record Retry : Type 1 where
  pub on_error : {A : Type 0} → (Error → Bool) → M A → M A
  pub runs :
      {A : Type 0} (retriable : Error → Bool) (m : M A) (h : History)
      → Attempts retriable m h (on_error retriable m h)

-- What every run keeps holds when the last run starts, and the retry ends as that run does.
Attempts-last :
    {A : Type 0} (P : History → Type 0) {retriable : Error → Bool} {m : M A} {h : History}
    {r : Outcome A × History}
    → ((h' : History) → P h' → P (m h').1)
    → Attempts retriable m h r
    → P h
    → (h' : History) × (P h') × (r ≡ m h')
Attempts-last P keep (last h) p = (h, p, refl)
Attempts-last P keep (again h e f t next) p = Attempts-last P keep next (keep h p)

-- An action whose errors are never retriable runs once.
Attempts-once :
    {A : Type 0} {retriable : Error → Bool} {m : M A} {h : History} {r : Outcome A × History}
    → ((h' : History) (e : Error) → (m h').0 ≡ returns (err e) → retriable e ≡ false)
    → Attempts retriable m h r
    → r ≡ m h
Attempts-once never (last h) = refl
Attempts-once never (again h e f t next) = cc (never h e f)

module _ (R : Retry) {A : Type 0} (retriable : Error → Bool) (m : M A) (h : History) where
  pub on_error-last :
      (P : History → Type 0)
      → ((h' : History) → P h' → P (m h').1)
      → P h
      → (h' : History) × (P h') × (R.on_error retriable m h ≡ m h')
  on_error-last P keep = Attempts-last P keep (R.runs retriable m h)

  pub on_error-once :
      ((h' : History) (e : Error) → (m h').0 ≡ returns (err e) → retriable e ≡ false)
      → R.on_error retriable m h ≡ m h
  on_error-once never = Attempts-once never (R.runs retriable m h)

-- `unstructured.NestedStringSlice`, which reads as nil where the path or a type is wrong, and
-- `unstructured.SetNestedStringSlice`.
pub record Unstructured : Type 0 where
  pub nested_string_slice : Fields → List String → List String
  pub set_nested_string_slice : Fields → List String → List String → Result Fields
  pub slice-set :
      (object : Fields) (slice path : List String) (object' : Fields)
      → set_nested_string_slice object slice path ≡ ok object'
      → nested_string_slice object' path ≡ slice

-- `runtime.DefaultUnstructuredConverter` at one resource type.
pub record Converter (A : Type 0) : Type 0 where
  pub from_unstructured : Fields → Result A
  pub to_unstructured : A → Result Fields
