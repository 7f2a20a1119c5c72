-- ===== src/DeepCopy/Laws.antt =====
-- What the copies share with the objects that they were made from.
use mathlib.Core.Option
use alustan.Base.{suc, ◌<◌, Option, none, some, ◌≡◌, ◌≢◌, refl, arith, ap, List, [], ◌∷◌, map}
use alustan.Value.{Value}
use alustan.DeepCopy.{
  Address, Memory, TerraformCell, AppCell, ListCell, deep_copy_terraform_into, deep_copy_app_into,
  deep_copy_object, deep_copy_list, write, held, write_held,
}

module _ {Cell : Type 0} (field : Cell → Option Address) (m : Memory Cell) (p : Address)
    {cell : Cell} {a : Address} (there : m.objects p ≡ some cell) (x : field cell ≡ some a) where
  held-some : held field m p ≡ some (m.contents a)
  unfolding held
  held-some = rw (there, held) (rw x refl)

  write_held-some :
      (v : Value) → write_held field m p v ≡ record m { contents = write m.contents a v }
  unfolding write_held
  write_held-some v = rw (there, write_held) (rw (x) refl)

module _ {Cell : Type 0} (copy_into : Cell → Cell → Cell) (zero_value : Cell) (m : Memory Cell)
    (p : Address) (cell : Cell) (field : Cell → Option Address) (v : Value) where
  abbrev copied : Memory Cell
  copied = record m { free = suc m.free; objects = write m.objects m.free (some cell) }

  -- The copy is a new object with the same fields, and the old one stays. The two have the map or
  -- slice of this field in common: what is written into that of the copy is read in the original.
  abbrev pub Shares : Type 0
  Shares =
      (m' : Memory Cell) × (deep_copy_object copy_into zero_value p m ≡ some (m.free, m'))
      × (m'.objects p ≡ some cell)
      × (m'.objects m.free ≡ some cell)
      × (m.free ≢ p)
      × (held field (write_held field m' m.free v) p ≡ some v)

  deep_copy-copied :
      m.objects p ≡ some cell
      → copy_into cell zero_value ≡ cell
      → deep_copy_object copy_into zero_value p m ≡ some (m.free, copied)
  unfolding deep_copy_object
  deep_copy-copied e kept = rw (e, deep_copy_object) (rw kept refl)

  deep_copy_object-Shares :
      {a : Address}
      → m.objects p ≡ some cell
      → copy_into cell zero_value ≡ cell
      → p < m.free
      → field cell ≡ some a
      → Shares
  deep_copy_object-Shares {a} e kept lt x =
      let old : copied.objects p ≡ some cell = ground (arith, e) in
      let new : copied.objects m.free ≡ some cell = ground arith in
      let written : Memory Cell = record copied { contents = write m.contents a v } in
      let first : write_held field copied m.free v ≡ written =
        write_held-some field copied m.free new x v in
      let second : held field written p ≡ some (write m.contents a v a) =
        held-some field written p old x in
      let third : write m.contents a v a ≡ v = ground arith in
      (copied, deep_copy-copied e kept, old, new, λ q. omega arith, rw (first, second, third) refl)

-- DeepCopyObject of a Terraform resource makes a new object with the same fields and leaves the old
-- one; but whichever of its maps is written through the copy, what is written is read in the
-- original.
pub deep_copy_terraform-Shares :
    (zero_value : TerraformCell) (m : Memory TerraformCell) (p : Address) (cell : TerraformCell)
    (field : TerraformCell → Option Address) (v : Value) {a : Address}
    → m.objects p ≡ some cell
    → p < m.free
    → field cell ≡ some a
    → Shares deep_copy_terraform_into zero_value m p cell field v
unfolding deep_copy_terraform_into
deep_copy_terraform-Shares zero_value m p cell field v e lt x =
    deep_copy_object-Shares deep_copy_terraform_into zero_value m p cell field v e refl lt x

-- The same for an App, its values, dependencies and conditions.
pub deep_copy_app-Shares :
    (zero_value : AppCell) (m : Memory AppCell) (p : Address) (cell : AppCell)
    (field : AppCell → Option Address) (v : Value) {a : Address}
    → m.objects p ≡ some cell
    → p < m.free
    → field cell ≡ some a
    → Shares deep_copy_app_into zero_value m p cell field v
unfolding deep_copy_app_into
deep_copy_app-Shares zero_value m p cell field v e lt x =
    deep_copy_object-Shares deep_copy_app_into zero_value m p cell field v e refl lt x

map-id : {A : Type 0} (f : A → A) → ((a : A) → f a ≡ a) → (xs : List A) → map f xs ≡ xs
map-id f same [] = refl
map-id f same (x ∷ xs) = rw (same x, map-id f same xs) refl

map_items-id :
    {A : Type 0} (f : A → A)
    → ((a : A) → f a ≡ a)
    → (items : Option (List A)) → Option.map (map f) items ≡ items
map_items-id f same none = refl
map_items-id f same (some items) = ap some (map-id f same items)

-- The copies of the two kinds of lists have the fields of the list, no items where that has none,
-- and else items with the fields of its items, in their order.
pub deep_copy_list-eq :
    (zero_terraform : TerraformCell) (zero_app : AppCell) (terraforms : ListCell TerraformCell)
    (apps : ListCell AppCell)
    → (deep_copy_list deep_copy_terraform_into zero_terraform terraforms ≡ terraforms)
      × (deep_copy_list deep_copy_app_into zero_app apps ≡ apps)
unfolding deep_copy_list deep_copy_terraform_into deep_copy_app_into
deep_copy_list-eq zero_terraform zero_app terraforms apps = (
  ap (λ (i : Option (List TerraformCell)). record terraforms { items = i })
      (map_items-id (λ item. deep_copy_terraform_into item zero_terraform) (λ _. refl)
        terraforms.items),
  ap (λ (i : Option (List AppCell)). record apps { items = i })
      (map_items-id (λ item. deep_copy_app_into item zero_app) (λ _. refl) apps.items),
)
