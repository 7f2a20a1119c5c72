-- ===== src/Containers/Claim.antt =====
-- pkg/containers/ensurePvc.go: the persistent volume claim exists. The claim created asks for
-- "5Gi" with access mode ReadWriteOnce. The client returns a claim or an error, never neither.
pub mod Laws
use alustan.Base.{String, Result, ok, err}
use alustan.Cluster.{Cluster, M, call, pure, try, ◌>>=◌, get_claim, create_claim}

module _ (c : Cluster) (namespace claim_name : String) where
  -- Any error of the lookup is taken for a missing claim.
  abbrev create_unless_found : Result (Unit {0}) → M (Unit {0})
  create_unless_found (ok _) = pure tt
  create_unless_found (err _) = call c.ack (create_claim namespace claim_name)

  -- `EnsurePVC`
  unfoldable pub ensure_claim : M (Unit {0})
  ensure_claim = do r ← try (call c.ack (get_claim namespace claim_name)); create_unless_found r
