-- ===== src/DeepCopy.antt =====
-- api/infrastructure/v1alpha1/deepcopy.go and api/app/v1alpha1/deepcopy.go over a memory: a map, a
-- slice or a pointer in an object is kept as its address, since assignment copies only that. Here an
-- object has `ObjectMeta` as one value, whose own maps are at an address too.
pub mod Laws
use Prim.Native.Nat.{compare, Ordering}
use mathlib.Core.Option
use alustan.Base.{
  true, false, if◌then◌else◌, ℕ, suc, String, Bool, Option, none, some, List, [], ◌∷◌, StringMap,
  map,
}
use alustan.Value.{Value}
use alustan.Types.{ContainerRegistry, Scripts, PreviewEnvironment}

abbrev pub Address : Type 0
Address = ℕ

-- `metav1.TypeMeta`
pub record TypeMeta : Type 0 where
  pub kind : String
  pub api_version : String

-- `metav1.ObjectMeta`, with the addresses of its labels, annotations and deletion timestamp.
pub record MetaCell : Type 0 where
  pub name : String
  pub namespace : String
  pub generation : ℕ
  pub labels : Option Address
  pub annotations : Option Address
  pub deletion_timestamp : Option Address

-- `Terraform`, field by field.
pub record TerraformCell : Type 0 where
  pub type_meta : TypeMeta
  pub metadata : MetaCell
  pub environment : String
  pub variables : Option Address
  pub scripts : Scripts
  pub post_deploy_script : String
  pub post_deploy_args : Option Address
  pub container_registry : ContainerRegistry
  pub state : String
  pub message : String
  pub post_deploy_output : Option Address
  pub observed_generation : ℕ

-- `App`, field by field.
pub record AppCell : Type 0 where
  pub type_meta : TypeMeta
  pub metadata : MetaCell
  pub environment : String
  pub preview_environment : PreviewEnvironment
  pub repo_url : String
  pub path : String
  pub release_name : String
  pub target_revision : String
  pub values : Option Address
  pub container_registry : ContainerRegistry
  pub services : Option Address
  pub state : String
  pub message : String
  pub health_status : Option Address
  pub preview_urls : Option Address
  pub observed_generation : ℕ

-- `DeepCopyInto` of a Terraform resource: what is left at the target.
unfoldable pub deep_copy_terraform_into : TerraformCell → TerraformCell → TerraformCell
deep_copy_terraform_into original out = record {
  type_meta = original.type_meta;
  metadata = original.metadata;
  environment = original.environment;
  variables = original.variables;
  scripts = original.scripts;
  post_deploy_script = original.post_deploy_script;
  post_deploy_args = original.post_deploy_args;
  container_registry = original.container_registry;
  state = original.state;
  message = original.message;
  post_deploy_output = original.post_deploy_output;
  observed_generation = original.observed_generation;
}

-- `DeepCopyInto` of an App.
unfoldable pub deep_copy_app_into : AppCell → AppCell → AppCell
deep_copy_app_into original out = record {
  type_meta = original.type_meta;
  metadata = original.metadata;
  environment = original.environment;
  preview_environment = original.preview_environment;
  repo_url = original.repo_url;
  path = original.path;
  release_name = original.release_name;
  target_revision = original.target_revision;
  values = original.values;
  container_registry = original.container_registry;
  services = original.services;
  state = original.state;
  message = original.message;
  health_status = original.health_status;
  preview_urls = original.preview_urls;
  observed_generation = original.observed_generation;
}

-- The objects of one type, the maps and slices, and the first address that is free. What a map or a
-- slice holds is kept as one value.
pub record Memory (Cell : Type 0) : Type 0 where
  pub free : Address
  pub objects : Address → Option Cell
  pub contents : Address → Value

abbrev same : Address → Address → Bool
same a b = elim (compare a b) [ Ordering.eq ↦ true | _ ↦ false ]

abbrev pub write : {A : Type 0} → (Address → A) → Address → A → Address → A
write f a v b = if same b a then v else f b

-- A list of objects: the slice of its items holds them inline, and may be nil.
pub record ListCell (Cell : Type 0) : Type 0 where
  pub type_meta : TypeMeta
  pub resource_version : String
  pub items : Option (List Cell)

module _ {Cell : Type 0} (deep_copy_into : Cell → Cell → Cell) (zero_value : Cell) where
  -- `DeepCopyObject`: the address of a new object. A nil pointer panics.
  unfoldable pub deep_copy_object : Address → Memory Cell → Option (Address × Memory Cell)
  deep_copy_object p m = elim (m.objects p) [
    | none ↦ none
    | some original ↦ some (
      m.free,
      record m {
        free = suc m.free;
        objects = write m.objects m.free (some (deep_copy_into original zero_value));
      },
    )
  ]

  -- `DeepCopyObject` of a list, whose items are copied one by one.
  unfoldable pub deep_copy_list : ListCell Cell → ListCell Cell
  deep_copy_list original = record {
    type_meta = original.type_meta;
    resource_version = original.resource_version;
    items = Option.map (map (λ item. deep_copy_into item zero_value)) original.items;
  }

-- What an object at an address holds in one of its maps or slices, and a write into that.
module _ {Cell : Type 0} (field : Cell → Option Address) where
  unfoldable pub held : Memory Cell → Address → Option Value
  held m p = elim (m.objects p) [ none ↦ none | some cell ↦ Option.map m.contents (field cell) ]

  unfoldable pub write_held : Memory Cell → Address → Value → Memory Cell
  write_held m p v = elim (m.objects p) [
    | none ↦ m
    | some cell ↦ elim (field cell) [
      | none ↦ m
      | some a ↦ record m { contents = write m.contents a v }
    ]
  ]
