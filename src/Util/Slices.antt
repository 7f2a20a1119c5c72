-- ===== src/Util/Slices.antt =====
-- `ContainsString` and `RemoveString` of pkg/util/util.go against each other.
use alustan.Base.{
  inr, inl, ◌==◌, Bool-cases, String, ◌≡◌, refl, true, false, List, [], ◌∷◌, ◌++◌, arith, eq_iff,
  eq_refl, ap,
}
use alustan.Util.{contains_string, remove_string}

pub contains_string-append :
    (xs : List String) (s : String) → contains_string (xs ++ s ∷ []) s ≡ true
unfolding contains_string
contains_string-append [] s = rw eq_refl
contains_string-append (x ∷ xs) s = ground (arith, contains_string-append xs s)

-- RemoveString drops the first occurrence of the string and keeps every other item in its place:
-- the items before the first occurrence and the items behind it.
pub remove_string-append :
    (pre post : List String) (s : String)
    → contains_string pre s ≡ false
    → remove_string (pre ++ s ∷ post) s ≡ pre ++ post
unfolding contains_string remove_string
remove_string-append [] post s h = rw eq_refl
remove_string-append (x ∷ pre) post s h = ground (arith, remove_string-append pre post s)

-- Without an occurrence RemoveString changes nothing.
pub remove_string_absent :
    (xs : List String) (s : String) → contains_string xs s ≡ false → remove_string xs s ≡ xs
unfolding contains_string remove_string
remove_string_absent [] s h = refl
remove_string_absent (x ∷ xs) s h = ground (arith, remove_string_absent xs s)

-- A string that is there has a first occurrence.
pub contains_string-split :
    (xs : List String) (s : String)
    → contains_string xs s ≡ true
    → (pre post : List String) × (xs ≡ pre ++ s ∷ post) × (contains_string pre s ≡ false)
unfolding contains_string
contains_string-split [] s h = absurd (ground arith)
contains_string-split (x ∷ xs) s h = elim (Bool-cases (x == s)) [
  | inl same ↦ ([], xs, ground (arith, eq_iff x s), refl)
  | inr other ↦
      let (pre, post, e, fresh) = contains_string-split xs s (rw other at h) in
      (x ∷ pre, post, ap (λ r. x ∷ r) e, rw other fresh)
]
