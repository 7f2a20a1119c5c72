-- ===== src/Containers/Claim/Laws.antt =====
-- About the persistent volume claim.
use alustan.Base.{String, ok, err, Error, ◌∷◌, ◌≡◌, ◌⊎◌, inl, inr, Result-cases, arith}
use alustan.Cluster.{Cluster, History, returns, get_claim, create_claim}
use alustan.Containers.Claim.{ensure_claim}

-- When EnsurePVC answers nil, the claim was found and nothing was created, or the lookup
-- failed in any way and the creation, sent once, succeeds.
pub ensure_claim-ok :
    (c : Cluster) (namespace claim_name : String) (h : History)
    → (ensure_claim c namespace claim_name h).0 ≡ returns (ok tt)
    → let looked = get_claim namespace claim_name ∷ h in
      let create = create_claim namespace claim_name in
      let h' = (ensure_claim c namespace claim_name h).1 in
      ((c.ack h (get_claim namespace claim_name) ≡ ok tt) × (h' ≡ looked))
      ⊎ ((e : Error) × (c.ack h (get_claim namespace claim_name) ≡ err e)
          × (c.ack looked create ≡ ok tt)
          × (h' ≡ create ∷ looked))
unfolding ensure_claim
ensure_claim-ok c namespace claim_name h p =
    elim (Result-cases (c.ack h (get_claim namespace claim_name))) [
      | inl (_, r) ↦ inl (r, ground arith)
      | inr (e, r) ↦ inr (e, r, ground arith, ground arith)
    ]
