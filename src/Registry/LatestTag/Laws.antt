-- ===== src/Registry/LatestTag/Laws.antt =====
-- The choice of getLatestTag among the tags of an image.
use alustan.Base.{
  err, Option-cases, refl, Result-cases, Error, Bool-cases, ◌⊎◌, String, Option, none, some, List,
  [], ◌∷◌, ok, All, Any, arith, ◌≡◌, inl, inr, false, Bool,
}
use alustan.Registry.LatestTag.{Semver, candidate, latest_version, get_latest_tag, keep}

module _ {V : Type 0} (S : Semver V) where
  -- `o` is no newer than `v`.
  abbrev pub NotAbove : V → Option V → Type 0
  NotAbove v none = Unit {0}
  NotAbove v (some w) = S.greater_than w v ≡ false

  keep-NotAbove :
      (v : V) (latest o : Option V)
      → NotAbove v (keep S latest o)
      → NotAbove v latest × NotAbove v o
  keep-NotAbove v none none h = (tt, tt)
  keep-NotAbove v (some l) none h = (h, tt)
  keep-NotAbove v none (some w) h = (tt, h)
  keep-NotAbove v (some l) (some w) h = elim (Bool-cases (S.greater_than w l)) [
    | inl up ↦
        let w_v : S.greater_than w v ≡ false = ground arith in
        (S.not-greater-trans l w v (S.greater_asymm w l up) w_v, w_v)
    | inr down ↦
        let l_v : S.greater_than l v ≡ false = ground arith in
        (l_v, S.not-greater-trans w l v down l_v)
  ]

  latest_version-NotAbove :
      (check : V → Bool) (latest : Option V) (tags : List String) (v : V)
      → latest_version S check latest tags ≡ some v
      → NotAbove v latest × All (λ tag. NotAbove v (candidate S check tag)) tags
  unfolding latest_version
  latest_version-NotAbove check latest [] v h = (rw h (S.greater_irrefl v), tt)
  latest_version-NotAbove check latest (tag ∷ tags) v h =
      let (l, rest) =
        latest_version-NotAbove check (keep S latest (candidate S check tag)) tags v h in
      let (below, this) = keep-NotAbove v latest (candidate S check tag) l in (below, (this, rest))

  keep-source :
      (latest o : Option V) (v : V) → keep S latest o ≡ some v → (latest ≡ some v) ⊎ (o ≡ some v)
  keep-source latest none v h = inl h
  keep-source none (some w) v h = inr h
  keep-source (some l) (some w) v h = ground arith

  keep-none : (latest o : Option V) → keep S latest o ≡ none → (latest ≡ none) × (o ≡ none)
  keep-none latest none h = (h, refl)
  keep-none none (some w) h = cc
  keep-none (some l) (some w) h = ground arith

  latest_version-source :
      (check : V → Bool) (latest : Option V) (tags : List String) (v : V)
      → latest_version S check latest tags ≡ some v
      → (latest ≡ some v) ⊎ Any (λ tag. candidate S check tag ≡ some v) tags
  unfolding latest_version
  latest_version-source check latest [] v h = inl h
  latest_version-source check latest (tag ∷ tags) v h =
      elim (latest_version-source check (keep S latest (candidate S check tag)) tags v h) [
        | inr later ↦ inr (inr later)
        | inl now ↦ elim (keep-source latest (candidate S check tag) v now) [
          | inl before ↦ inl before
          | inr this ↦ inr (inl this)
        ]
      ]

  -- A tag that getLatestTag returns is the text of the version of one of the tags, which meets the
  -- constraint, and no tag that parses and meets the constraint has a greater version.
  pub get_latest_tag-newest :
      (tags : List String) (semantic_version tag : String)
      → get_latest_tag S tags semantic_version ≡ ok tag
      → (check : V → Bool) × (v : V) × (S.new_constraint semantic_version ≡ ok check)
        × (tag ≡ S.version_text v)
        × Any (λ t. candidate S check t ≡ some v) tags
        × All (λ t. NotAbove v (candidate S check t)) tags
  unfolding get_latest_tag
  get_latest_tag-newest tags semantic_version tag h =
      elim (Result-cases (S.new_constraint semantic_version)) [
        | inr (e, p) ↦ absurd (ground arith)
        | inl (check, p) ↦ elim (Option-cases (latest_version S check none tags)) [
          | inl nothing ↦ absurd (ground arith)
          | inr (v, found) ↦ (
            check,
            v,
            p,
            ground arith,
            elim (latest_version-source check none tags v found) [
              | inl impossible ↦ absurd (cc impossible)
              | inr member ↦ member
            ],
            (latest_version-NotAbove check none tags v found).1,
          )
        ]
      ]

  none_left :
      (check : V → Bool) (latest : Option V) (tags : List String)
      → latest_version S check latest tags ≡ none
      → (latest ≡ none) × All (λ t. candidate S check t ≡ none) tags
  unfolding latest_version
  none_left check latest [] h = (h, tt)
  none_left check latest (tag ∷ tags) h =
      let (k, rest) = none_left check (keep S latest (candidate S check tag)) tags h in
      let (l, o) = keep-none latest (candidate S check tag) k in (l, (o, rest))

  -- When the constraint parses and getLatestTag still fails, no tag is a version that meets it.
  pub get_latest_tag-none :
      (tags : List String) (semantic_version : String) (check : V → Bool) (e : Error)
      → S.new_constraint semantic_version ≡ ok check
      → get_latest_tag S tags semantic_version ≡ err e
      → All (λ t. candidate S check t ≡ none) tags
  unfolding get_latest_tag
  get_latest_tag-none tags semantic_version check e p h =
      (none_left check none tags (ground arith)).1
