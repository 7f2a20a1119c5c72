-- ===== src/Base/Errors.antt =====
-- Go's error values and the results that carry them.
use Prim.Native.String.{String, ◌++◌ as ◌<>◌}
use mathlib.Core.Path.{◌≡◌, refl}
use mathlib.Core.Logic.{◌⊎◌, inl, inr}
use mathlib.Core.Bool.{Bool, true, false}

-- What the callers ask of an error: the reasons of the Kubernetes API machinery and the two gRPC
-- codes that the program tests; `other` is any error that answers no to all of these tests.
pub data Reason : Type 0 where
  not_found already_exists conflict internal_error server_timeout : Reason
  deadline_exceeded unavailable other : Reason

pub record Error : Type 0 where
  pub reason : Reason
  pub message : String

-- `fmt.Errorf("...: %v", err)`: the text of the error is kept, its reason is not.
abbrev pub errorf : String → Error → Error
errorf prefix e = record { reason = other; message = prefix <> e.message }

-- `fmt.Errorf("...: %w", err)`: the wrapped error still answers for its reason.
abbrev pub wrapf : String → Error → Error
wrapf prefix e = record e { message = prefix <> e.message }

-- `fmt.Errorf("...")` and `errors.New("...")`
abbrev pub new_error : String → Error
new_error text = record { reason = other; message = text }

-- `errors.IsNotFound` and its kin
abbrev pub is_not_found : Error → Bool
is_not_found e = elim e.reason [ not_found ↦ true | _ ↦ false ]

abbrev pub is_already_exists : Error → Bool
is_already_exists e = elim e.reason [ already_exists ↦ true | _ ↦ false ]

abbrev pub is_conflict : Error → Bool
is_conflict e = elim e.reason [ conflict ↦ true | _ ↦ false ]

abbrev pub is_internal_error : Error → Bool
is_internal_error e = elim e.reason [ internal_error ↦ true | _ ↦ false ]

abbrev pub is_server_timeout : Error → Bool
is_server_timeout e = elim e.reason [ server_timeout ↦ true | _ ↦ false ]

-- `status.Code(err) == codes.DeadlineExceeded || status.Code(err) == codes.Unavailable`
abbrev pub is_unreachable : Error → Bool
is_unreachable e = elim e.reason [ deadline_exceeded ↦ true | unavailable ↦ true | _ ↦ false ]

-- A value with a nil error, or an error.
pub data Result {ℓ} (A : Type ℓ) : Type ℓ where
  ok : A → Result A
  err : Error → Result A

abbrev pub bind_result {ℓ κ} : {A : Type ℓ} {B : Type κ} → Result A → (A → Result B) → Result B
bind_result (ok a) f = f a
bind_result (err e) f = err e

abbrev pub map_error {ℓ} : {A : Type ℓ} → (Error → Error) → Result A → Result A
map_error f (ok a) = ok a
map_error f (err e) = err (f e)

pub Result-cases {ℓ} :
    {A : Type ℓ} (r : Result A) → ((a : A) × (r ≡ ok a)) ⊎ ((e : Error) × (r ≡ err e))
Result-cases (ok a) = inl (a, refl)
Result-cases (err e) = inr (e, refl)
