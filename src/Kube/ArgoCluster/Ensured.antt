-- ===== src/Kube/ArgoCluster/Ensured.antt =====
-- About the clusters of Argo CD when CreateOrUpdateArgoCluster succeeds.
use alustan.Base.{
  String, Bool, true, false, List, [], ◌∷◌, Option, none, some, ok, ◌≡◌, refl, ◌⊎◌, inl, inr, Any,
  All, Result-cases, Bool-cases, insert, ◌==◌, arith,
}
use alustan.Cluster.{
  Cluster, ArgoCluster, History, M, Outcome, returns, list_clusters, create_cluster, update_cluster,
}
use alustan.Kube.ArgoCluster.{
  Polls, finished, failed, exhausted, again, stuck, crashes, Backoff, Scan, settled,
  default_cluster, scan, has_environment, default_server, act, label_default, create_new,
  ensure_once, create_or_update_argo_cluster,
}

module _ (environment : String) where
  -- A cluster that ends the search.
  abbrev pub Settles : ArgoCluster → Type 0
  Settles cl = (has_environment "control" cl ≡ true) ⊎ (has_environment environment cl ≡ true)

  abbrev pub IsDefault : ArgoCluster → Type 0
  IsDefault cl = (cl.server == default_server) ≡ true

  -- What the loop has found in a list, starting with `found`.
  abbrev Scanned : Option ArgoCluster → List ArgoCluster → Scan → Type 0
  Scanned found cls settled = Any Settles cls
  Scanned found cls (default_cluster (some cl)) =
      (found ≡ some cl) ⊎ Any (λ b. (b ≡ cl) × IsDefault b) cls
  Scanned found cls (default_cluster none) =
      (found ≡ none) × All (λ b. (b.server == default_server) ≡ false) cls

  Scanned-nil : (found : Option ArgoCluster) → Scanned found [] (default_cluster found)
  Scanned-nil none = (refl, tt)
  Scanned-nil (some cl) = inl refl

  -- One more cluster in front that is the default one, or is of no interest.
  after_default :
      (found : Option ArgoCluster) (cl : ArgoCluster) (cls : List ArgoCluster) (s : Scan)
      → IsDefault cl
      → Scanned (some cl) cls s
      → Scanned found (cl ∷ cls) s
  after_default found cl cls settled d s = inr s
  after_default found cl cls (default_cluster (some b)) d (inl e) = inr (inl (cc e, d))
  after_default found cl cls (default_cluster (some b)) d (inr s) = inr (inr s)
  after_default found cl cls (default_cluster none) d s = cc s.0

  after_other :
      (found : Option ArgoCluster) (cl : ArgoCluster) (cls : List ArgoCluster) (s : Scan)
      → (cl.server == default_server) ≡ false
      → Scanned found cls s
      → Scanned found (cl ∷ cls) s
  after_other found cl cls settled d s = inr s
  after_other found cl cls (default_cluster (some b)) d (inl e) = inl e
  after_other found cl cls (default_cluster (some b)) d (inr s) = inr (inr s)
  after_other found cl cls (default_cluster none) d s = (s.0, (d, s.1))

  scan-Scanned :
      (found : Option ArgoCluster) (cls : List ArgoCluster)
      → Scanned found cls (scan environment found cls)
  unfolding scan
  scan-Scanned found [] = Scanned-nil found
  scan-Scanned found (cl ∷ cls) = elim (Bool-cases (has_environment "control" cl)) [
    | inl control ↦ rw control (inl (inl control))
    | inr no_control ↦ elim (Bool-cases (cl.server == default_server)) [
      | inl d ↦
          rw (no_control, d)
            (after_default found cl cls (scan environment (some cl) cls) d
              (scan-Scanned (some cl) cls))
      | inr d ↦ elim (Bool-cases (has_environment environment cl)) [
        | inl there ↦ rw (no_control, d, there) (inl (inr there))
        | inr missing ↦
            rw (no_control, d, missing)
              (after_other found cl cls (scan environment found cls) d (scan-Scanned found cls))
      ]
    ]
  ]

module _ (c : Cluster) (cluster_name environment : String) where
  -- The cluster as it is sent.
  abbrev pub labelled : ArgoCluster → ArgoCluster
  labelled cl = record cl { labels = insert "environment" environment cl.labels }

  abbrev pub new_cluster : ArgoCluster
  new_cluster = record {
    name = cluster_name;
    server = default_server;
    labels = ("environment", environment) ∷ [];
  }

  -- The clusters listed at `h` are as they should be, or were made so by one write that was
  -- acknowledged.
  abbrev pub IsEnsured : History → List ArgoCluster → Type 0
  IsEnsured h cls =
      let asked = list_clusters ∷ h in
      Any (Settles environment) cls
      ⊎ ((cl : ArgoCluster) × Any (λ b. (b ≡ cl) × IsDefault environment b) cls
          × ((has_environment environment cl ≡ true)
              ⊎ (c.ack asked (update_cluster (labelled cl)) ≡ ok tt)))
      ⊎ (All (λ b. (b.server == default_server) ≡ false) cls
          × (c.ack asked (create_cluster new_cluster) ≡ ok tt))

  label_default-ok :
      (cl : ArgoCluster) (h : History)
      → (label_default c cluster_name environment cl h).0 ≡ returns (ok true)
      → (has_environment environment cl ≡ true) ⊎ (c.ack h (update_cluster (labelled cl)) ≡ ok tt)
  unfolding label_default
  label_default-ok cl h p = elim (Bool-cases (has_environment environment cl)) [
    | inl there ↦ inl there
    | inr missing ↦ inr (ground arith)
  ]

  create_new-ok :
      (h : History)
      → (create_new c cluster_name environment h).0 ≡ returns (ok true)
      → c.ack h (create_cluster new_cluster) ≡ ok tt
  unfolding create_new
  create_new-ok h p = ground arith

  act-ok :
      (s : Scan) (h : History) (cls : List ArgoCluster)
      → Scanned environment none cls s
      → (act c cluster_name environment s (list_clusters ∷ h)).0 ≡ returns (ok true)
      → IsEnsured h cls
  act-ok settled h cls s p = inl s
  act-ok (default_cluster (some cl)) h cls (inl e) p = cc e
  act-ok (default_cluster (some cl)) h cls (inr s) p =
      inr (inl (cl, s, label_default-ok cl (list_clusters ∷ h) p))
  act-ok (default_cluster none) h cls s p = inr (inr (s.1, create_new-ok (list_clusters ∷ h) p))

  ensure_once-ok :
      (h : History)
      → (ensure_once c cluster_name environment h).0 ≡ returns (ok true)
      → (cls : List ArgoCluster) × (c.clusters h list_clusters ≡ ok cls) × IsEnsured h cls
  unfolding ensure_once
  ensure_once-ok h p = elim (Result-cases (c.clusters h list_clusters)) [
    | inr (e, failed_list) ↦ absurd (ground arith)
    | inl (cls, listed) ↦ (
      cls,
      listed,
      act-ok (scan environment none cls) h cls (scan-Scanned environment none cls) (rw listed at p),
    )
  ]

-- A poll that succeeds ends with a run of the condition that is done.
Polls-ok :
    {m : M Bool} (h : History) (r : Outcome (Unit {0}) × History)
    → Polls m h r
    → r.0 ≡ returns (ok tt)
    → (h' : History) × ((m h').0 ≡ returns (ok true))
Polls-ok h r (finished _ e) p = (h, e)
Polls-ok h r (failed _ x e) p = cc p
Polls-ok h r (exhausted _ x e) p = cc p
Polls-ok {m} h r (again _ e next) p = Polls-ok (m h).1 r next p
Polls-ok h r (stuck _ e) p = cc p
Polls-ok h r (crashes _ e) p = cc p

-- When CreateOrUpdateArgoCluster returns nil, Argo CD has listed its clusters in the last run, and
-- one of them has the label of the control environment or of this one; or a default cluster in the
-- list has the label of this environment or was updated with it; or no default cluster is in the
-- list, and one with the label was created.
pub create_or_update_argo_cluster-ok :
    (c : Cluster) (B : Backoff) (has_client : Bool) (cluster_name environment : String)
    (h : History)
    → (create_or_update_argo_cluster c B has_client cluster_name environment h).0 ≡ returns (ok tt)
    → (h' : History) × (cls : List ArgoCluster) × (c.clusters h' list_clusters ≡ ok cls)
      × IsEnsured c cluster_name environment h' cls
unfolding create_or_update_argo_cluster
create_or_update_argo_cluster-ok c B has_client cluster_name environment h p =
    let m = ensure_once c cluster_name environment in
    let (h', done) = Polls-ok h (B.exponential_backoff m h) (B.runs m h) (ground arith) in
    let (cls, listed, ensured) = ensure_once-ok c cluster_name environment h' done in
    (h', cls, listed, ensured)
