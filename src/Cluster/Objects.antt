-- ===== src/Cluster/Objects.antt =====
-- The objects that the program reads and writes, with the fields that it sets or inspects.
use alustan.Base.{ℕ, String, Option, none, some, List, [], StringMap}
use alustan.Value.{Value}

-- The resources of group alustan.io, version v1alpha1.
pub data Kind : Type 0 where
  apps terraforms : Kind

pub data PodPhase : Type 0 where
  pending running succeeded failed unknown : PodPhase

-- `v1.PodSpec` as the program fills it: one container named "terraform" that is always pulled,
-- one empty-dir volume "workspace", no restart.
pub record PodSpec : Type 0 where
  pub service_account_name : String
  pub image : String
  pub env : StringMap String
  pub image_pull_secret : String

pub record Pod : Type 0 where
  pub name : String
  pub labels : StringMap String
  pub finalizers : List String
  pub spec : PodSpec
  pub phase : PodPhase

-- A map of Go, which is nil for `none`, as it is read.
abbrev pub entries_of : Option (StringMap String) → StringMap String
entries_of none = []
entries_of (some entries) = entries

-- `content` is `Data`, which is nil when the server sends none.
pub record Secret : Type 0 where
  pub name : String
  pub namespace : String
  pub labels : StringMap String
  pub annotations : StringMap String
  pub content : Option (StringMap String)
  pub secret_type : String

pub record ConfigMap : Type 0 where
  pub name : String
  pub namespace : String
  pub content : StringMap String

pub record ServiceAccount : Type 0 where
  pub name : String
  pub namespace : String
  pub annotations : StringMap String

-- A cluster role that allows every verb on every resource and URL.
pub record ClusterRole : Type 0 where
  pub name : String

pub record ClusterRoleBinding : Type 0 where
  pub name : String
  pub subject_name : String
  pub subject_namespace : String
  pub role : String

-- `appv1alpha1.Cluster` of Argo CD. A nil label map reads as an empty one.
pub record ArgoCluster : Type 0 where
  pub name : String
  pub server : String
  pub labels : StringMap String

-- `appv1alpha1.Application` of Argo CD; a condition is kept as an opaque value.
pub record Application : Type 0 where
  pub name : String
  pub namespace : String
  pub creation_timestamp : ℕ
  pub health : String
  pub sync : String
  pub conditions : List Value

-- The pull-request generator of a preview.
pub record PullRequestGenerator : Type 0 where
  pub owner : String
  pub repo : String
  pub labels : List String
  pub token_ref : Option (String × String)
  pub requeue_after_seconds : ℕ

pub data Generator : Type 0 where
  clusters : StringMap String → Generator
  matrix : PullRequestGenerator → StringMap String → Generator

pub data Destination : Type 0 where
  by_name : String → String → Destination
  by_server : String → String → Destination

pub record ApplicationSet : Type 0 where
  pub name : String
  pub namespace : String
  pub generators : List Generator
  pub template_name : String
  pub template_labels : StringMap String
  pub destination : Destination
  pub repo_url : String
  pub path : String
  pub target_revision : String
  pub release_name : String
  pub helm_values : String

pub record Deployment : Type 0 where
  pub ready_replicas : ℕ
  pub replicas : ℕ

-- `http.Response` with its body read.
pub record Response : Type 0 where
  pub status_code : ℕ
  pub status : String
  pub body : String
