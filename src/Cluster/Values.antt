-- ===== src/Cluster/Values.antt =====
-- What holds of the values that an action returns, and the rules by which it follows.
use alustan.Base.{Error, Result, ok, err, ◌≡◌, refl}
use alustan.Cluster.Monad.{
  wrap, rethrow, History, Outcome, returns, waiting, crashed, M, caught, try, continue, ◌>>=◌,
}

-- The value, if there is one, satisfies `P`.
abbrev pub Holds : {A : Type 0} → (A → Type 0) → Outcome A → Type 0
Holds P (returns (ok a)) = P a
Holds P (returns (err _)) = Unit {0}
Holds P waiting = Unit {0}
Holds P crashed = Unit {0}

abbrev pub Yields : {A : Type 0} → (A → Type 0) → M A → Type 0
Yields P m = (h : History) → Holds P (m h).0

module _ {A B : Type 0} (P : A → Type 0) (Q : B → Type 0) where
  continue-Holds :
      (o : Outcome A) (f : A → M B) (h : History)
      → Holds P o
      → ((a : A) → P a → Yields Q (f a))
      → Holds Q (continue o f h).0
  continue-Holds (returns (ok a)) f h p k = k a p h
  continue-Holds (returns (err e)) f h p k = tt
  continue-Holds waiting f h p k = tt
  continue-Holds crashed f h p k = tt

  pub Yields-bind :
      (m : M A) (f : A → M B) → Yields P m → ((a : A) → P a → Yields Q (f a)) → Yields Q (m >>= f)
  Yields-bind m f p k h = continue-Holds (m h).0 f (m h).1 (p h) k

-- A result that is looked at is one that the action has returned.
abbrev pub Returned : {A : Type 0} → M A → Result A → Type 0
Returned m r = (h : History) × ((m h).0 ≡ returns r)

module _ {A : Type 0} (m : M A) where
  any-Holds : (o : Outcome A) → Holds (λ (_ : A). Unit {0}) o
  any-Holds (returns (ok a)) = tt
  any-Holds (returns (err e)) = tt
  any-Holds waiting = tt
  any-Holds crashed = tt

  pub Yields-any : Yields (λ (_ : A). Unit {0}) m
  Yields-any h = any-Holds (m h).0

  caught-Holds : (h : History) (o : Outcome A) → (m h).0 ≡ o → Holds (Returned m) (caught o)
  caught-Holds h (returns r) e = (h, e)
  caught-Holds h waiting e = tt
  caught-Holds h crashed e = tt

  pub Yields-try : Yields (Returned m) (try m)
  Yields-try h = caught-Holds h (m h).0 refl

-- The rule for `try m >>= f`.
pub Yields-catch :
    {A B : Type 0} (Q : B → Type 0) (m : M A) (f : Result A → M B)
    → ((r : Result A) → Returned m r → Yields Q (f r))
    → Yields Q (try m >>= f)
Yields-catch Q m f k = Yields-bind (Returned m) Q (try m) f (Yields-try m) k

module _ {A : Type 0} (P : A → Type 0) where
  rethrow-Holds : (f : Error → Error) (o : Outcome A) → Holds P o → Holds P (rethrow f o)
  rethrow-Holds f (returns (ok a)) p = p
  rethrow-Holds f (returns (err e)) p = tt
  rethrow-Holds f waiting p = tt
  rethrow-Holds f crashed p = tt

  pub Yields-wrap : (f : Error → Error) (m : M A) → Yields P m → Yields P (wrap f m)
  Yields-wrap f m p h = rethrow-Holds f (m h).0 (p h)

-- A value that an action yields is one that it has returned.
pub Yields-self : {A : Type 0} (m : M A) → Yields (λ a. Returned m (ok a)) m
Yields-self {A} m h = self-Holds (m h).0 refl
  where
    self-Holds : (o : Outcome A) → (m h).0 ≡ o → Holds (λ a. Returned m (ok a)) o
    self-Holds (returns (ok a)) e = (h, e)
    self-Holds (returns (err _)) e = tt
    self-Holds waiting e = tt
    self-Holds crashed e = tt
