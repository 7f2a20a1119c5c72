-- ===== src/Service/Placeholders/Contains.antt =====
-- About containsPlaceholders at whole values.
use alustan.Base.{Bool, true, false, ◌||◌, ◌⊎◌, inl, inr, ◌≡◌, refl}
use alustan.Value.{
  Value, Items, Fields, null, boolean, number, text, arr, obj, nil, cons, end, field,
}
use alustan.Service.Placeholders.{
  contains_placeholders, items_contain_placeholders, fields_contain_placeholders,
}
use alustan.Service.Placeholders.Pattern.{
  HasPlaceholder, matches_placeholder_sound, matches_placeholder_iff, or_true,
}

unfoldable mutual
  -- Some text of the values, at any depth and also in lists, has a match.
  pub SomePlaceholder : Value → Type 0
  SomePlaceholder (text s) = HasPlaceholder s
  SomePlaceholder (arr xs) = SomeItem xs
  SomePlaceholder (obj fs) = SomeField fs
  SomePlaceholder _ = ⊥

  pub SomeItem : Items → Type 0
  SomeItem nil = ⊥
  SomeItem (cons x xs) = SomePlaceholder x ⊎ SomeItem xs

  pub SomeField : Fields → Type 0
  SomeField end = ⊥
  SomeField (field k v fs) = SomePlaceholder v ⊎ SomeField fs

or-cases : (a b : Bool) → (a || b) ≡ true → (a ≡ true) ⊎ (b ≡ true)
or-cases true b p = inl refl
or-cases false b p = inr p

or-sum : {P Q : Type 0} (a b : Bool) → (P → a ≡ true) → (Q → b ≡ true) → P ⊎ Q → (a || b) ≡ true
or-sum a b f g (inl p) = rw (f p) refl
or-sum a b f g (inr q) = rw (g q) (or_true a)

mutual
  unfolding contains_placeholders SomePlaceholder

  contains_placeholders_sound : (v : Value) → contains_placeholders v ≡ true → SomePlaceholder v
  contains_placeholders_sound (text s) p = matches_placeholder_sound s p
  contains_placeholders_sound (arr xs) p = items_sound xs p
  contains_placeholders_sound (obj fs) p = fields_sound fs p
  contains_placeholders_sound null p = cc p
  contains_placeholders_sound (boolean b) p = cc p
  contains_placeholders_sound (number n) p = cc p

  items_sound : (xs : Items) → items_contain_placeholders xs ≡ true → SomeItem xs
  items_sound nil p = cc p
  items_sound (cons x xs) p =
      elim (or-cases (contains_placeholders x) (items_contain_placeholders xs) p) [
        | inl q ↦ inl (contains_placeholders_sound x q)
        | inr q ↦ inr (items_sound xs q)
      ]

  fields_sound : (fs : Fields) → fields_contain_placeholders fs ≡ true → SomeField fs
  fields_sound end p = cc p
  fields_sound (field k v fs) p =
      elim (or-cases (contains_placeholders v) (fields_contain_placeholders fs) p) [
        | inl q ↦ inl (contains_placeholders_sound v q)
        | inr q ↦ inr (fields_sound fs q)
      ]

  contains_placeholders_complete : (v : Value) → SomePlaceholder v → contains_placeholders v ≡ true
  contains_placeholders_complete (text s) p = (matches_placeholder_iff s).1 p
  contains_placeholders_complete (arr xs) p = items_complete xs p
  contains_placeholders_complete (obj fs) p = fields_complete fs p
  contains_placeholders_complete null p = absurd p
  contains_placeholders_complete (boolean b) p = absurd p
  contains_placeholders_complete (number n) p = absurd p

  items_complete : (xs : Items) → SomeItem xs → items_contain_placeholders xs ≡ true
  items_complete nil p = absurd p
  items_complete (cons x xs) p =
      or-sum (contains_placeholders x) (items_contain_placeholders xs)
        (λ q. contains_placeholders_complete x q) (λ q. items_complete xs q) p

  fields_complete : (fs : Fields) → SomeField fs → fields_contain_placeholders fs ≡ true
  fields_complete end p = absurd p
  fields_complete (field k v fs) p =
      or-sum (contains_placeholders v) (fields_contain_placeholders fs)
        (λ q. contains_placeholders_complete v q) (λ q. fields_complete fs q) p

-- containsPlaceholders answers true exactly when some text of the values, at any depth of maps and
-- lists, has "{{.", at least one character none of which is "}", and "}}" at some place.
pub contains_placeholders_iff :
    (v : Value)
    → (contains_placeholders v ≡ true → SomePlaceholder v)
      × (SomePlaceholder v → contains_placeholders v ≡ true)
contains_placeholders_iff v = (contains_placeholders_sound v, contains_placeholders_complete v)
