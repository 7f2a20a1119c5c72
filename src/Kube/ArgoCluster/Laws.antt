-- ===== src/Kube/ArgoCluster/Laws.antt =====
-- About CreateOrUpdateArgoCluster and control clusters.
use alustan.Base.{
  ℕ, suc, String, Bool, true, List, [], ◌∷◌, Option, none, some, ok, ◌≡◌, refl, ◌∙◌, inl, inr, Any,
  Result-cases, arith,
}
use alustan.Cluster.{
  Cluster, ArgoCluster, History, M, Outcome, list_clusters, create_cluster, update_cluster,
}
use alustan.Kube.ArgoCluster.{
  Polls, finished, failed, exhausted, again, stuck, crashes, Backoff, settled, scan,
  has_environment, ensure_once, create_or_update_argo_cluster,
}

-- How many writes of Argo CD clusters a history holds.
abbrev pub cluster_writes : History → ℕ
cluster_writes [] = 0
cluster_writes (create_cluster _ ∷ h) = suc (cluster_writes h)
cluster_writes (update_cluster _ ∷ h) = suc (cluster_writes h)
cluster_writes (_ ∷ h) = cluster_writes h

-- A cluster with the label of the control environment.
abbrev pub IsControl : ArgoCluster → Type 0
IsControl cl = has_environment "control" cl ≡ true

scan_control :
    (environment : String) (found : Option ArgoCluster) (cls : List ArgoCluster)
    → Any IsControl cls
    → scan environment found cls ≡ settled
unfolding scan
scan_control environment found [] control = elim control [ ]
scan_control environment found (cl ∷ cls) control =
    ground (arith, scan_control environment (some cl) cls, scan_control environment found cls)

module _ (c : Cluster) (cluster_name environment : String) where
  -- Every list of clusters that the server answers has a control cluster.
  abbrev pub AlwaysControl : Type 0
  AlwaysControl =
      (h : History) (cls : List ArgoCluster)
      → c.clusters h list_clusters ≡ ok cls
      → Any IsControl cls

  ensure_once-writes :
      AlwaysControl
      → (h : History)
      → cluster_writes (ensure_once c cluster_name environment h).1 ≡ cluster_writes h
  unfolding ensure_once
  ensure_once-writes control h = elim (Result-cases (c.clusters h list_clusters)) [
    | inl (cls, r) ↦ rw (r, scan_control environment none cls (control h cls r)) refl
    | inr (e, r) ↦ ground arith
  ]

-- What each run of the condition keeps, the poll keeps.
Polls-keeps :
    {m : M Bool}
    → ((h : History) → cluster_writes (m h).1 ≡ cluster_writes h)
    → (h : History) (r : Outcome (Unit {0}) × History) → Polls m h r
    → cluster_writes r.1 ≡ cluster_writes h
Polls-keeps keep h r (finished _ e) = keep h
Polls-keeps keep h r (failed _ x e) = keep h
Polls-keeps keep h r (exhausted _ x e) = keep h
Polls-keeps {m} keep h r (again _ e next) = Polls-keeps keep (m h).1 r next ∙ keep h
Polls-keeps keep h r (stuck _ e) = keep h
Polls-keeps keep h r (crashes _ e) = keep h

-- However often the condition is polled: while every list of clusters that Argo CD answers has a
-- cluster of the control environment, CreateOrUpdateArgoCluster creates and updates none.
pub create_or_update_argo_cluster-respects_control :
    (c : Cluster) (B : Backoff) (has_client : Bool) (cluster_name environment : String)
    (h : History)
    → AlwaysControl c cluster_name environment
    → cluster_writes (create_or_update_argo_cluster c B has_client cluster_name environment h).1
      ≡ cluster_writes h
unfolding create_or_update_argo_cluster
create_or_update_argo_cluster-respects_control c B has_client cluster_name environment h control =
    ground (
      arith,
      Polls-keeps (ensure_once-writes c cluster_name environment control) h
          (B.exponential_backoff (ensure_once c cluster_name environment) h)
          (B.runs (ensure_once c cluster_name environment) h),
    )
