-- ===== src/Kube/ArgoCluster.antt =====
-- pkg/infrastructure/kubernetes/argoSecret.go: the in-cluster entry of Argo CD is given the label
-- of the environment.
pub mod Laws
pub mod Ensured
use alustan.Base.{
  String, Bool, true, false, Option, none, some, List, [], ◌∷◌, ◌==◌, Error, Result, ok, err, wrapf,
  new_error, is_unreachable, lookup, insert, if◌then◌else◌, ◌≡◌,
}
use alustan.Cluster.{
  Cluster, ArgoCluster, M, History, Outcome, returns, waiting, crashed, call, pure, raise, try,
  wrap, ◌>>=◌, list_clusters, create_cluster, update_cluster,
}

-- `k8s.io/apimachinery/pkg/util/wait`: the condition is run until it is done, fails, or has used
-- up its steps.
pub data Polls (m : M Bool) : History → Outcome (Unit {0}) × History → Type 0 where
  finished : (h : History) → (m h).0 ≡ returns (ok true) → Polls m h (returns (ok tt), (m h).1)
  failed :
      (h : History) (e : Error) → (m h).0 ≡ returns (err e) → Polls m h (returns (err e), (m h).1)
  exhausted :
      (h : History) (e : Error)
      → (m h).0 ≡ returns (ok false)
      → Polls m h (returns (err e), (m h).1)
  again :
      (h : History) {r : Outcome (Unit {0}) × History}
      → (m h).0 ≡ returns (ok false)
      → Polls m (m h).1 r
      → Polls m h r
  stuck : (h : History) → (m h).0 ≡ waiting → Polls m h (waiting, (m h).1)
  crashes : (h : History) → (m h).0 ≡ crashed → Polls m h (crashed, (m h).1)

pub record Backoff : Type 0 where
  pub exponential_backoff : M Bool → M (Unit {0})
  pub runs : (m : M Bool) (h : History) → Polls m h (exponential_backoff m h)

-- What the loop over the clusters found.
pub data Scan : Type 0 where
  settled : Scan
  default_cluster : Option ArgoCluster → Scan

abbrev pub default_server : String
default_server = "https://kubernetes.default.svc"

abbrev pub has_environment : String → ArgoCluster → Bool
has_environment environment cl = elim (lookup "environment" cl.labels) [
  | none ↦ false
  | some env ↦ env == environment
]

-- The loop: a control cluster or one of the environment ends it; the last default cluster is kept.
unfoldable pub scan : String → Option ArgoCluster → List ArgoCluster → Scan
unfolding lookup
scan environment found [] = default_cluster found
scan environment found (cl ∷ cls) =
    let with_default = scan environment (some cl) cls in
    let without = scan environment found cls in
    if has_environment "control" cl
    then settled
    else if cl.server == default_server
    then with_default
    else if has_environment environment cl
    then settled
    else without

-- A transient error leaves the condition unfinished, any other ends the poll.
abbrev retry_or_fail : String → Error → M Bool
retry_or_fail prefix e = if is_unreachable e then pure false else raise (wrapf prefix e)

abbrev done_unless : String → Result (Unit {0}) → M Bool
done_unless prefix (ok _) = pure true
done_unless prefix (err e) = retry_or_fail prefix e

module _ (c : Cluster) (cluster_name environment : String) where
  -- The default cluster is updated unless it has the label already.
  unfoldable pub label_default : ArgoCluster → M Bool
  unfolding insert
  label_default cl = if has_environment environment cl then pure true else do
    r ← try (
        call c.ack
          (update_cluster (record cl { labels = insert "environment" environment cl.labels })))
    done_unless "failed to update default cluster: " r

  unfoldable pub create_new : M Bool
  create_new = do
    r ← try (
        call c.ack (
          create_cluster (record {
            name = cluster_name;
            server = default_server;
            labels = ("environment", environment) ∷ [];
          })))
    done_unless "failed to create cluster: " r

  abbrev act : Scan → M Bool
  act settled = pure true
  act (default_cluster (some cl)) = label_default cl
  act (default_cluster none) = create_new

  abbrev after_list : Result (List ArgoCluster) → M Bool
  after_list (ok cls) = act (scan environment none cls)
  after_list (err e) = retry_or_fail "failed to list clusters: " e

  -- The condition that `wait.ExponentialBackoff` polls.
  unfoldable pub ensure_once : M Bool
  ensure_once = do r ← try (call c.clusters list_clusters); after_list r

-- `CreateOrUpdateArgoCluster`; `has_client` is false while the cluster client is nil.
unfoldable pub create_or_update_argo_cluster :
    Cluster → Backoff → Bool → String → String → M (Unit {0})
create_or_update_argo_cluster c B has_client cluster_name environment =
    if has_client
    then if environment == ""
      then raise (new_error "environment is empty")
      else wrap (wrapf "exceeded retry limit for creating or listing clusters: ")
          (B.exponential_backoff (ensure_once c cluster_name environment))
    else raise (new_error "clusterClient is nil")
