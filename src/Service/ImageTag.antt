-- ===== src/Service/ImageTag.antt =====
-- `updateImageTag`: the new tag goes into every map under a key "image" that has a tag. The code
-- writes into the image maps that it is given; the values that it is given are not used again.
pub mod Laws
use alustan.Base.{String, Bool, true, false, is_some, ◌==◌, if◌then◌else◌}
use alustan.Value.{
  Value, Items, Fields, null, boolean, number, text, arr, obj, nil, cons, end, field, get, put,
}

-- "Update the tag if it exists."
unfoldable pub set_tag : String → Fields → Fields
set_tag new_tag image = if is_some (get "tag" image) then put "tag" (text new_tag) image else image

unfoldable mutual
  -- The value of a key that is not "image", or that is no map.
  pub update_value : String → Value → Value
  update_value new_tag (obj fs) = obj (update_image_tag new_tag fs)
  update_value new_tag (arr xs) = arr (update_items new_tag xs)
  update_value new_tag null = null
  update_value new_tag (boolean b) = boolean b
  update_value new_tag (number n) = number n
  update_value new_tag (text s) = text s

  -- The items of a slice: only the maps among them are entered.
  pub update_items : String → Items → Items
  update_items new_tag nil = nil
  update_items new_tag (cons x xs) = cons (update_item new_tag x) (update_items new_tag xs)

  pub update_item : String → Value → Value
  update_item new_tag (obj fs) = obj (update_image_tag new_tag fs)
  update_item new_tag (arr xs) = arr xs
  update_item new_tag null = null
  update_item new_tag (boolean b) = boolean b
  update_item new_tag (number n) = number n
  update_item new_tag (text s) = text s

  pub update_entry : String → Bool → Value → Value
  update_entry new_tag true (obj fs) = obj (set_tag new_tag fs)
  update_entry new_tag false (obj fs) = obj (update_image_tag new_tag fs)
  update_entry new_tag is_image (arr xs) = arr (update_items new_tag xs)
  update_entry new_tag is_image null = null
  update_entry new_tag is_image (boolean b) = boolean b
  update_entry new_tag is_image (number n) = number n
  update_entry new_tag is_image (text s) = text s

  -- `updateImageTag`
  pub update_image_tag : String → Fields → Fields
  update_image_tag new_tag end = end
  update_image_tag new_tag (field key value fs) =
      field key (update_entry new_tag (key == "image") value) (update_image_tag new_tag fs)
