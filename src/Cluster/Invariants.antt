-- ===== src/Cluster/Invariants.antt =====
-- Invariants of histories, and the rules by which an action keeps one.
use alustan.Base.{◌∙◌, ◌≢◌, Error, Bool, true, false, Result, ok, err, if◌then◌else◌, ◌≡◌, refl}
use alustan.Cluster.Monad.{
  rethrow, wrap, caught, History, Outcome, returns, waiting, crashed, M, try, continue, ◌>>=◌,
}

-- `m` keeps `P`, whatever it returns.
abbrev pub Keeps : {A : Type 0} → (History → Type 0) → M A → Type 0
Keeps P m = (h : History) → P h → P (m h).1

module _ {A B : Type 0} {P : History → Type 0} where
  Keeps-continue :
      (o : Outcome A) (f : A → M B) → ((a : A) → Keeps P (f a)) → Keeps P (continue o f)
  Keeps-continue (returns (ok a)) f k = k a
  Keeps-continue (returns (err e)) f k = λ h p. p
  Keeps-continue waiting f k = λ h p. p
  Keeps-continue crashed f k = λ h p. p

  pub Keeps-bind :
      (m : M A) (f : A → M B) → Keeps P m → ((a : A) → Keeps P (f a)) → Keeps P (m >>= f)
  Keeps-bind m f km kf h p = Keeps-continue (m h).0 f kf (m h).1 (km h p)

-- A sequence whose second part leads from one invariant to a weaker one.
module _ {A B : Type 0} (P Q : History → Type 0) (weaker : (h : History) → P h → Q h) where
  Leads-continue :
      (o : Outcome A) (f : A → M B) (h : History)
      → P h
      → ((a : A) (h' : History) → P h' → Q (f a h').1)
      → Q (continue o f h).1
  Leads-continue (returns (ok a)) f h p k = k a h p
  Leads-continue (returns (err e)) f h p k = weaker h p
  Leads-continue waiting f h p k = weaker h p
  Leads-continue crashed f h p k = weaker h p

  pub Leads-bind :
      (m : M A) (f : A → M B)
      → Keeps P m
      → ((a : A) (h' : History) → P h' → Q (f a h').1)
      → (h : History) → P h
      → Q ((m >>= f) h).1
  Leads-bind m f km kf h p = Leads-continue (m h).0 f (m h).1 (km h p) kf

module _ {A : Type 0} {P : History → Type 0} where
  pub Keeps-try : (m : M A) → Keeps P m → Keeps P (try m)
  Keeps-try m k = k

  pub Keeps-if : (b : Bool) (m n : M A) → Keeps P m → Keeps P n → Keeps P (if b then m else n)
  Keeps-if true m n km kn = km
  Keeps-if false m n km kn = kn

-- A sequence that returns a value has run its second part, on a value that the first returned.
pub bind-ok :
    {A B : Type 0} (m : M A) (f : A → M B) (h : History) {b : B}
    → ((m >>= f) h).0 ≡ returns (ok b)
    → (a : A) × (h' : History) × (m h ≡ (returns (ok a), h')) × ((f a h').0 ≡ returns (ok b))
bind-ok {A} m f h {b} p = split (m h) refl p
  where
    split :
        (r : Outcome A × History)
        → m h ≡ r
        → (continue r.0 f r.1).0 ≡ returns (ok b)
        → (a : A) × (h' : History) × (m h ≡ (returns (ok a), h')) × ((f a h').0 ≡ returns (ok b))
    split (returns (ok a), h') e q = (a, h', e, q)
    split (returns (err x), h') e q = absurd (cc q)
    split (waiting, h') e q = absurd (cc q)
    split (crashed, h') e q = absurd (cc q)

-- The same where the second part looks at the error, and fails on every one.
pub try-ok :
    {A B : Type 0} (m : M A) (f : Result A → M B) (h : History) {b : B}
    → ((e : Error) (h' : History) → (f (err e) h').0 ≢ returns (ok b))
    → ((try m >>= f) h).0 ≡ returns (ok b)
    → (a : A) × (h' : History) × (m h ≡ (returns (ok a), h')) × ((f (ok a) h').0 ≡ returns (ok b))
try-ok {A} m f h {b} fails p = split (m h) refl p
  where
    split :
        (r : Outcome A × History)
        → m h ≡ r
        → (continue (caught r.0) f r.1).0 ≡ returns (ok b)
        → (a : A) × (h' : History) × (m h ≡ (returns (ok a), h'))
          × ((f (ok a) h').0 ≡ returns (ok b))
    split (returns (ok a), h') e q = (a, h', e, q)
    split (returns (err x), h') e q = absurd (fails x h' q)
    split (waiting, h') e q = absurd (cc q)
    split (crashed, h') e q = absurd (cc q)

-- The same with the history that the sequence leaves.
module _ {A B : Type 0} (m : M A) where
  pub bind-run :
      (f : A → M B) (h : History) {b : B} {h'' : History}
      → (m >>= f) h ≡ (returns (ok b), h'')
      → (a : A) × (h' : History) × (m h ≡ (returns (ok a), h')) × (f a h' ≡ (returns (ok b), h''))
  bind-run f h {b} {h''} p = split (m h) refl p
    where
      split :
          (r : Outcome A × History)
          → m h ≡ r
          → continue r.0 f r.1 ≡ (returns (ok b), h'')
          → (a : A) × (h' : History) × (m h ≡ (returns (ok a), h'))
            × (f a h' ≡ (returns (ok b), h''))
      split (returns (ok a), h') e q = (a, h', e, q)
      split (returns (err x), h') e q = absurd (cc q)
      split (waiting, h') e q = absurd (cc q)
      split (crashed, h') e q = absurd (cc q)

  pub try-run :
      (f : Result A → M B) (h : History) {b : B} {h'' : History}
      → ((e : Error) (h' : History) → f (err e) h' ≢ (returns (ok b), h''))
      → (try m >>= f) h ≡ (returns (ok b), h'')
      → (a : A) × (h' : History) × (m h ≡ (returns (ok a), h'))
        × (f (ok a) h' ≡ (returns (ok b), h''))
  try-run f h {b} {h''} fails p = split (m h) refl p
    where
      split :
          (r : Outcome A × History)
          → m h ≡ r
          → continue (caught r.0) f r.1 ≡ (returns (ok b), h'')
          → (a : A) × (h' : History) × (m h ≡ (returns (ok a), h'))
            × (f (ok a) h' ≡ (returns (ok b), h''))
      split (returns (ok a), h') e q = (a, h', e, q)
      split (returns (err x), h') e q = absurd (fails x h' q)
      split (waiting, h') e q = absurd (cc q)
      split (crashed, h') e q = absurd (cc q)

-- An action that returns a value does so without its wrapper too.
pub wrap-run :
    {A : Type 0} (f : Error → Error) (m : M A) (h : History) {a : A} {h' : History}
    → wrap f m h ≡ (returns (ok a), h')
    → m h ≡ (returns (ok a), h')
wrap-run {A} f m h {a} {h'} p = split (m h) refl p
  where
    split :
        (r : Outcome A × History)
        → m h ≡ r
        → ◌≡◌ {A = Outcome A × History} (rethrow f r.0, r.1) (returns (ok a), h')
        → m h ≡ (returns (ok a), h')
    split (returns (ok b), h₁) e q = e ∙ q
    split (returns (err x), h₁) e q = absurd (cc q)
    split (waiting, h₁) e q = absurd (cc q)
    split (crashed, h₁) e q = absurd (cc q)

-- The outcome is a value, or the action still waits.
abbrev pub IsNoError : {A : Type 0} → Outcome A → Type 0
IsNoError (returns (ok _)) = Unit {0}
IsNoError (returns (err _)) = ⊥
IsNoError waiting = Unit {0}
IsNoError crashed = Unit {0}

-- The action reports its failures in its value.
abbrev pub NeverRaises : {A : Type 0} → M A → Type 0
NeverRaises m = (h : History) → IsNoError (m h).0

module _ {A : Type 0} where
  caught-IsNoError : (o : Outcome A) → IsNoError (caught o)
  caught-IsNoError (returns (ok _)) = tt
  caught-IsNoError (returns (err _)) = tt
  caught-IsNoError waiting = tt
  caught-IsNoError crashed = tt

  pub NeverRaises-try : (m : M A) → NeverRaises (try m)
  NeverRaises-try m h = caught-IsNoError (m h).0

  pub NeverRaises-if :
      (b : Bool) (m n : M A) → NeverRaises m → NeverRaises n → NeverRaises (if b then m else n)
  NeverRaises-if true m n km kn = km
  NeverRaises-if false m n km kn = kn

module _ {A B : Type 0} where
  continue-IsNoError :
      (o : Outcome A) (f : A → M B) (h : History)
      → IsNoError o
      → ((a : A) → NeverRaises (f a))
      → IsNoError (continue o f h).0
  continue-IsNoError (returns (ok a)) f h p k = k a h
  continue-IsNoError (returns (err e)) f h p k = p
  continue-IsNoError waiting f h p k = p
  continue-IsNoError crashed f h p k = p

  pub NeverRaises-bind :
      (m : M A) (f : A → M B)
      → NeverRaises m
      → ((a : A) → NeverRaises (f a))
      → NeverRaises (m >>= f)
  NeverRaises-bind m f km kf h = continue-IsNoError (m h).0 f (m h).1 (km h) kf

  -- An action that looks at the error of another one itself.
  pub NeverRaises-catch :
      (m : M A) (f : Result A → M B)
      → ((a : A) → NeverRaises (f (ok a)))
      → ((e : Error) → NeverRaises (f (err e)))
      → NeverRaises (try m >>= f)
  NeverRaises-catch m f good bad h = caught-cases (m h).0
    where
      caught-cases : (o : Outcome A) → IsNoError (continue (caught o) f (m h).1).0
      caught-cases (returns (ok a)) = good a (m h).1
      caught-cases (returns (err e)) = bad e (m h).1
      caught-cases waiting = tt
      caught-cases crashed = tt
