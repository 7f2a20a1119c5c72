-- ===== src/Service/ImageTag/Laws.antt =====
-- About updateImageTag of pkg/application/service/service.go.
use alustan.Base.{
  none, inr, inl, some, Option-cases, Option, String, Bool, true, false, ◌≡◌, refl, ap, arith, ◌==◌,
}
use alustan.Value.{
  Value, Items, Fields, null, boolean, number, text, arr, obj, nil, cons, end, field, get, get-put,
  put-put,
}
use alustan.Service.ImageTag.{
  set_tag, update_value, update_items, update_item, update_entry, update_image_tag,
}

set_tag-set_tag : (s t : String) (fs : Fields) → set_tag t (set_tag s fs) ≡ set_tag t fs
unfolding set_tag
set_tag-set_tag s t fs =
    ground (arith, get-put "tag" "tag" (text s) fs, put-put "tag" (text t) (text s) fs)

mutual
  unfolding update_value

  entry_twice :
      (s t : String) (b : Bool) (v : Value)
      → update_entry t b (update_entry s b v) ≡ update_entry t b v
  entry_twice s t true (obj fs) = ap obj (set_tag-set_tag s t fs)
  entry_twice s t false (obj fs) = ap obj (fields_twice s t fs)
  entry_twice s t true (arr xs) = ap arr (items_twice s t xs)
  entry_twice s t false (arr xs) = ap arr (items_twice s t xs)
  entry_twice s t true null = refl
  entry_twice s t false null = refl
  entry_twice s t true (boolean b) = refl
  entry_twice s t false (boolean b) = refl
  entry_twice s t true (number n) = refl
  entry_twice s t false (number n) = refl
  entry_twice s t true (text x) = refl
  entry_twice s t false (text x) = refl

  item_twice : (s t : String) (v : Value) → update_item t (update_item s v) ≡ update_item t v
  item_twice s t (obj fs) = ap obj (fields_twice s t fs)
  item_twice s t (arr xs) = refl
  item_twice s t null = refl
  item_twice s t (boolean b) = refl
  item_twice s t (number n) = refl
  item_twice s t (text x) = refl

  items_twice : (s t : String) (xs : Items) → update_items t (update_items s xs) ≡ update_items t xs
  items_twice s t nil = refl
  items_twice s t (cons x xs) = cc (item_twice s t x, items_twice s t xs)

  fields_twice :
      (s t : String) (fs : Fields)
      → update_image_tag t (update_image_tag s fs) ≡ update_image_tag t fs
  fields_twice s t end = refl
  fields_twice s t (field k v fs) = cc (entry_twice s t (k == "image") v, fields_twice s t fs)

-- The last tag wins: updating with one tag and then with another gives the values that the second
-- update alone gives, in every image map, nested map and map in a slice. So an update changes
-- nothing but the tags, and doing it twice is doing it once.
pub update_image_tag-update_image_tag :
    (first second : String) (values : Fields)
    → update_image_tag second (update_image_tag first values) ≡ update_image_tag second values
update_image_tag-update_image_tag = fields_twice

-- Every image map that the values hold, at any depth of maps and in maps in slices, has the tag or
-- has no tag.
abbrev TagIs : String → Option Value → Type 0
TagIs t none = Unit {0}
TagIs t (some v) = v ≡ text t

mutual
  pub AllTagged : String → Fields → Type 0
  AllTagged t end = Unit {0}
  AllTagged t (field k v fs) = EntryTagged t (k == "image") v × AllTagged t fs

  EntryTagged : String → Bool → Value → Type 0
  EntryTagged t true (obj fs) = TagIs t (get "tag" fs)
  EntryTagged t false (obj fs) = AllTagged t fs
  EntryTagged t b (arr xs) = ItemsTagged t xs
  EntryTagged t b _ = Unit {0}

  ItemsTagged : String → Items → Type 0
  ItemsTagged t nil = Unit {0}
  ItemsTagged t (cons x xs) = ItemTagged t x × ItemsTagged t xs

  ItemTagged : String → Value → Type 0
  ItemTagged t (obj fs) = AllTagged t fs
  ItemTagged t _ = Unit {0}

set_tag-TagIs : (t : String) (fs : Fields) → TagIs t (get "tag" (set_tag t fs))
unfolding set_tag
set_tag-TagIs t fs = elim (Option-cases (get "tag" fs)) [
  | inl e ↦ rw (e, e) tt
  | inr (v, e) ↦ rw (e, get-put) refl
]

mutual
  unfolding update_value AllTagged

  entry_tagged : (t : String) (b : Bool) (v : Value) → EntryTagged t b (update_entry t b v)
  entry_tagged t true (obj fs) = set_tag-TagIs t fs
  entry_tagged t false (obj fs) = fields_tagged t fs
  entry_tagged t true (arr xs) = items_tagged t xs
  entry_tagged t false (arr xs) = items_tagged t xs
  entry_tagged t true null = tt
  entry_tagged t false null = tt
  entry_tagged t true (boolean b) = tt
  entry_tagged t false (boolean b) = tt
  entry_tagged t true (number n) = tt
  entry_tagged t false (number n) = tt
  entry_tagged t true (text x) = tt
  entry_tagged t false (text x) = tt

  item_tagged : (t : String) (v : Value) → ItemTagged t (update_item t v)
  item_tagged t (obj fs) = fields_tagged t fs
  item_tagged t (arr xs) = tt
  item_tagged t null = tt
  item_tagged t (boolean b) = tt
  item_tagged t (number n) = tt
  item_tagged t (text x) = tt

  items_tagged : (t : String) (xs : Items) → ItemsTagged t (update_items t xs)
  items_tagged t nil = tt
  items_tagged t (cons x xs) = (item_tagged t x, items_tagged t xs)

  fields_tagged : (t : String) (fs : Fields) → AllTagged t (update_image_tag t fs)
  fields_tagged t end = tt
  fields_tagged t (field k v fs) = (entry_tagged t (k == "image") v, fields_tagged t fs)

-- After an update no image map that the code reaches holds another tag than the new one.
pub update_image_tag-AllTagged :
    (new_tag : String) (values : Fields) → AllTagged new_tag (update_image_tag new_tag values)
update_image_tag-AllTagged = fields_tagged
