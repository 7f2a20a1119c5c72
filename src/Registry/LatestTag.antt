-- ===== src/Registry/LatestTag.antt =====
-- `getLatestTag` of pkg/infrastructure/registry/registry.go (pkg/application/registry/registry.go
-- has the same function), over the semantic versions of a library.
pub mod Laws
use alustan.Base.{
  String, Bool, true, false, Option, none, some, List, [], ◌∷◌, Result, ok, err, Error, wrapf,
  new_error, bind_result, map_error, ◌<>◌, ◌≡◌, if◌then◌else◌,
}

-- `github.com/Masterminds/semver/v3`: the versions `V`, the parsers, and the order of precedence.
pub record Semver (V : Type 0) : Type 0 where
  pub new_version : String → Result V
  pub new_constraint : String → Result (V → Bool)
  pub greater_than : V → V → Bool
  pub version_text : V → String
  pub greater_irrefl : (v : V) → greater_than v v ≡ false
  pub greater_asymm : (v w : V) → greater_than v w ≡ true → greater_than w v ≡ false
  pub not-greater-trans :
      (u v w : V) → greater_than u v ≡ false → greater_than v w ≡ false → greater_than u w ≡ false

module _ {V : Type 0} (S : Semver V) where
  -- The version of a tag that parses and meets the constraint.
  unfoldable pub candidate : (V → Bool) → String → Option V
  candidate check tag = elim (S.new_version tag) [
    | ok v ↦ if check v then some v else none
    | err _ ↦ none
  ]

  abbrev newer : Option V → V → Option V
  newer none version = some version
  newer (some latest) version = if S.greater_than version latest then some version else some latest

  abbrev keep : Option V → Option V → Option V
  keep latest none = latest
  keep latest (some version) = newer latest version

  -- The loop over the tags, from the latest version so far.
  unfoldable pub latest_version : (V → Bool) → Option V → List String → Option V
  unfolding candidate
  latest_version check latest [] = latest
  latest_version check latest (tag ∷ tags) =
      latest_version check (keep latest (candidate check tag)) tags

  abbrev text_or_error : String → Option V → Result String
  text_or_error semantic_version none =
      err (new_error ("no valid versions found for constraint " <> semantic_version))
  text_or_error semantic_version (some v) = ok (S.version_text v)

  -- `getLatestTag`
  unfoldable pub get_latest_tag : List String → String → Result String
  get_latest_tag tags semantic_version =
      bind_result
        (map_error (wrapf "error parsing semantic version constraint: ")
          (S.new_constraint semantic_version))
        (λ check. text_or_error semantic_version (latest_version check none tags))
