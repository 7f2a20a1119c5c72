-- ===== src/Containers/Script/Laws.antt =====
-- About the script line of CreateOrUpdateRunPod.
use Prim.Native.Char.{Char}
use text.Mathlib.TextLemmas.{cons-append, nil-append}
use alustan.Base.{
  Bool-cases, inl, inr, ap, ◌∙◌, ◌==◌, eq_iff, false, String, ◌≡◌, refl, ◌<>◌, Option, none, some,
}
use alustan.Containers.Script.{split_space}

abbrev pub joined : String × Option String → String
joined (script, none) = script
joined (script, some args) = script <> " " <> args

joined-cons :
    (ch : Char) (p : String × Option String)
    → joined (String.◌∷◌ ch p.0, p.1) ≡ String.◌∷◌ ch (joined p)
joined-cons ch (before, none) = refl
joined-cons ch (before, some behind) = cons-append ch before (" " <> behind)

space_cons : (ch : Char) (s : String) → String.◌∷◌ ch String.[] ≡ " " → " " <> s ≡ String.◌∷◌ ch s
space_cons ch s e = simp (← e, cons-append, nil-append)

-- Splitting at the first space loses nothing: a script line is the script that the pod is given,
-- alone or with a space and the arguments behind it.
pub joined-split_space : (s : String) → joined (split_space s) ≡ s
unfolding split_space
joined-split_space String.[] = refl
joined-split_space (String.◌∷◌ ch s) = elim (Bool-cases (String.◌∷◌ ch String.[] == " ")) [
  | inl space ↦
      rw (space, nil-append) (space_cons ch s ((eq_iff (String.◌∷◌ ch String.[]) " ").0 space))
  | inr other ↦
      rw other (joined-cons ch (split_space s) ∙ ap (String.◌∷◌ ch) (joined-split_space s))
]

-- A text with no space in it.
abbrev pub HasNoSpace : String → Type 0
HasNoSpace String.[] = Unit {0}
HasNoSpace (String.◌∷◌ ch s) = ((String.◌∷◌ ch String.[] == " ") ≡ false) × HasNoSpace s

-- The script that the pod is given has no space in it.
pub split_space-HasNoSpace : (s : String) → HasNoSpace (split_space s).0
unfolding split_space
split_space-HasNoSpace String.[] = tt
split_space-HasNoSpace (String.◌∷◌ ch s) = elim (Bool-cases (String.◌∷◌ ch String.[] == " ")) [
  | inl space ↦ rw space tt
  | inr other ↦ rw other (other, split_space-HasNoSpace s)
]
