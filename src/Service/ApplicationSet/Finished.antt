-- ===== src/Service/ApplicationSet/Finished.antt =====
-- The changes to the values behind their placeholders: the tag, and the hosts of a preview.
use alustan.Base.{String, Bool, true, false, ◌≡◌, ◌⊎◌, inl, inr, refl}
use alustan.Value.{Fields}
use alustan.Service.ImageTag.{update_image_tag}
use alustan.Service.ImageTag.Laws.{AllTagged, update_image_tag-AllTagged}
use alustan.Service.Ingress.{modify_ingress_host}
use alustan.Service.ApplicationSet.{final_values}

-- The tag was put into every image map of the values, and for a preview the hosts were changed then.
abbrev pub IsFinished : Bool → String → Fields → Fields → Type 0
IsFinished preview latest_tag values final =
    (tagged : Fields) × AllTagged latest_tag tagged
    × (tagged ≡ update_image_tag latest_tag values)
    × (((preview ≡ false) × (final ≡ tagged))
        ⊎ ((preview ≡ true) × (final ≡ modify_ingress_host true "{{.branch}}-{{.number}}" tagged)))

pub final_values-IsFinished :
    (preview : Bool) (latest_tag : String) (values : Fields)
    → IsFinished preview latest_tag values (final_values preview latest_tag values)
unfolding final_values
final_values-IsFinished true latest_tag values = (
  update_image_tag latest_tag values,
  update_image_tag-AllTagged latest_tag values,
  refl,
  inr (refl, refl),
)
final_values-IsFinished false latest_tag values = (
  update_image_tag latest_tag values,
  update_image_tag-AllTagged latest_tag values,
  refl,
  inl (refl, refl),
)
