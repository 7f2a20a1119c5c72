-- ===== src/Base/Lists.antt =====
-- Lists: predicates by recursion, and Go's maps as association lists.
use Prim.Native.Nat.{ℕ, suc}
use Prim.Native.String.{String}
use mathlib.Core.Path.{◌≡◌, refl}
use mathlib.Core.Logic.{◌⊎◌, inl, inr}
use mathlib.Core.Option.{Option, none, some}
use mathlib.Core.List.{List, [], ◌∷◌, ◌++◌}
use native.Mathlib.Omega.{arith}
use text.Mathlib.Text.{◌==◌}
use text.Mathlib.TextEquality.{eq_iff}
use alustan.Base.Tests.{if◌then◌else◌}

-- A predicate that holds of every member.
abbrev pub All {ℓ κ} : {A : Type ℓ} → (A → Type κ) → List A → Type κ
All P [] = Unit
All P (x ∷ xs) = P x × All P xs

pub All-append {ℓ κ} :
    {A : Type ℓ} (P : A → Type κ) (xs ys : List A) → All P xs → All P ys → All P (xs ++ ys)
All-append P [] ys hx hy = hy
All-append P (x ∷ xs) ys hx hy = (hx.0, All-append P xs ys hx.1 hy)

abbrev pub length {ℓ} : {A : Type ℓ} → List A → ℕ
length [] = 0
length (x ∷ xs) = suc (length xs)

-- A Go map with string keys, in the order in which one `range` over it goes.
abbrev pub StringMap {ℓ} : Type ℓ → Type ℓ
StringMap V = List (String × V)

-- `v, ok := m[key]`
unfoldable pub lookup {ℓ} : {V : Type ℓ} → String → StringMap V → Option V
lookup key [] = none
lookup key ((other, value) ∷ entries) =
    let rest = lookup key entries in if other == key then some value else rest

-- `m[key] = value`
unfoldable pub insert {ℓ} : {V : Type ℓ} → String → V → StringMap V → StringMap V
insert key value [] = (key, value) ∷ []
insert key value ((other, old) ∷ entries) =
    let rest = insert key value entries in
    if other == key then (key, value) ∷ entries else (other, old) ∷ rest

pub lookup-insert {ℓ} :
    {V : Type ℓ} (key asked : String) (value : V) (entries : StringMap V)
    → lookup asked (insert key value entries)
      ≡ (if key == asked then some value else lookup asked entries)
unfolding lookup insert
lookup-insert key asked value [] = refl
lookup-insert key asked value ((other, old) ∷ entries) = ground (
  arith,
  eq_iff other key,
  eq_iff other asked,
  eq_iff key asked,
  lookup-insert key asked value entries,
)

pub List-cases {ℓ} :
    {A : Type ℓ} (xs : List A) → (xs ≡ []) ⊎ ((x : A) × (r : List A) × (xs ≡ x ∷ r))
List-cases [] = inl refl
List-cases (x ∷ r) = inr (x, r, refl)

-- A predicate that holds of some member.
abbrev pub Any {ℓ} : {A : Type ℓ} → (A → Type 0) → List A → Type 0
Any P [] = ⊥
Any P (x ∷ xs) = P x ⊎ Any P xs
