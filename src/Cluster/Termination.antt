-- ===== src/Cluster/Termination.antt =====
-- Actions that come to an end: none of their loops reaches its bound, and nothing panics.
use alustan.Base.{Bool, true, false, Error, Result, ok, err, if◌then◌else◌}
use alustan.Cluster.Monad.{
  History, Outcome, returns, waiting, crashed, M, caught, try, continue, rethrow, wrap, ◌>>=◌,
}

abbrev pub IsReturned : {A : Type 0} → Outcome A → Type 0
IsReturned (returns _) = Unit {0}
IsReturned waiting = ⊥
IsReturned crashed = ⊥

abbrev pub Returns : {A : Type 0} → M A → Type 0
Returns m = (h : History) → IsReturned (m h).0

module _ {A : Type 0} where
  rethrow-IsReturned : (f : Error → Error) (o : Outcome A) → IsReturned o → IsReturned (rethrow f o)
  rethrow-IsReturned f (returns (ok a)) p = tt
  rethrow-IsReturned f (returns (err e)) p = tt
  rethrow-IsReturned f waiting p = p
  rethrow-IsReturned f crashed p = p

  pub Returns-wrap : (f : Error → Error) (m : M A) → Returns m → Returns (wrap f m)
  Returns-wrap f m k h = rethrow-IsReturned f (m h).0 (k h)

  caught-IsReturned : (o : Outcome A) → IsReturned o → IsReturned (caught o)
  caught-IsReturned (returns r) p = tt
  caught-IsReturned waiting p = p
  caught-IsReturned crashed p = p

  pub Returns-try : (m : M A) → Returns m → Returns (try m)
  Returns-try m k h = caught-IsReturned (m h).0 (k h)

  pub Returns-if : (b : Bool) (m n : M A) → Returns m → Returns n → Returns (if b then m else n)
  Returns-if true m n km kn = km
  Returns-if false m n km kn = kn

module _ {A B : Type 0} where
  continue-IsReturned :
      (o : Outcome A) (f : A → M B) (h : History)
      → IsReturned o
      → ((a : A) → Returns (f a))
      → IsReturned (continue o f h).0
  continue-IsReturned (returns (ok a)) f h p k = k a h
  continue-IsReturned (returns (err e)) f h p k = tt
  continue-IsReturned waiting f h p k = p
  continue-IsReturned crashed f h p k = p

  pub Returns-bind :
      (m : M A) (f : A → M B) → Returns m → ((a : A) → Returns (f a)) → Returns (m >>= f)
  Returns-bind m f km kf h = continue-IsReturned (m h).0 f (m h).1 (km h) kf

module _ {A B : Type 0} where
  -- An action that looks at the error of another one itself.
  pub Returns-catch :
      (m : M A) (f : Result A → M B)
      → Returns m
      → ((a : A) → Returns (f (ok a)))
      → ((e : Error) → Returns (f (err e)))
      → Returns (try m >>= f)
  Returns-catch m f km good bad = Returns-bind (try m) f (Returns-try m km) either
    where
      either : (r : Result A) → Returns (f r)
      either (ok a) = good a
      either (err e) = bad e
