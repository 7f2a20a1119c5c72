-- ===== src/Tests/Registry.antt =====
-- Examples for the latest tag.
use alustan.Base.{ℕ, refl, [], ◌∷◌, Bool, ok, ◌≡◌, String, List, some, All, Any}
use alustan.Registry.LatestTag.{latest_version, get_latest_tag, candidate}
use alustan.Registry.LatestTag.Laws.{get_latest_tag-newest, NotAbove}
use alustan.Tests.Fixtures.{three_versions}

abbrev published : List String
published = "1.0.0" ∷ "latest" ∷ "2.0.0" ∷ "1.1.0" ∷ []

get_latest_tag_test : get_latest_tag three_versions published "~1" ≡ ok "1.1.0"
unfolding get_latest_tag latest_version
get_latest_tag_test = refl

get_latest_tag-newest_example :
    (check : ℕ → Bool) × (v : ℕ) × (three_versions.new_constraint "~1" ≡ ok check)
    × ("1.1.0" ≡ three_versions.version_text v)
    × Any (λ t. candidate three_versions check t ≡ some v) published
    × All (λ t. NotAbove three_versions v (candidate three_versions check t)) published
unfolding get_latest_tag latest_version
get_latest_tag-newest_example = get_latest_tag-newest three_versions published "~1" "1.1.0" refl
