-- ===== src/Containers/Wait/Laws.antt =====
-- When the polling ends, and what its result means.
use alustan.Base.{
  refl, false, true, ◌⊎◌, Bool, inl, inr, Result-cases, Result, ℕ, zero, suc, ◌<◌, String, ◌≡◌,
  arith, ok, err, ◌∷◌,
}
use alustan.Cluster.{
  Cluster, Pod, PodPhase, succeeded, failed, History, returns, IsReturned, get_pod,
}
use alustan.Containers.Wait.{wait_for_pod_completion}

-- A phase is the good end, the bad end, or one after which the loop goes on.
abbrev goes_on : PodPhase → Bool
goes_on succeeded = false
goes_on failed = false
goes_on _ = true

phase_cases : (phase : PodPhase) → (phase ≡ succeeded) ⊎ (phase ≡ failed) ⊎ (goes_on phase ≡ true)
phase_cases succeeded = inl refl
phase_cases failed = inr (inl refl)
phase_cases _ = inr (inr refl)

module _ (c : Cluster) (namespace pod_name : String) where
  -- The history after `n` further polls.
  abbrev pub polled : ℕ → History → History
  polled zero h = h
  polled (suc n) h = polled n (get_pod namespace pod_name ∷ h)

  -- A poll that ends the loop: an error, or a phase that is final.
  abbrev pub IsFinalPhase : PodPhase → Type 0
  IsFinalPhase succeeded = Unit {0}
  IsFinalPhase failed = Unit {0}
  IsFinalPhase _ = ⊥

  abbrev pub IsFinal : Result Pod → Type 0
  IsFinal (ok pod) = IsFinalPhase pod.phase
  IsFinal (err _) = Unit {0}

  -- If some poll ends the loop, the wait returns when it is given one more round than polls before
  -- that one: it does not run on after the pod has ended.
  pub wait_for_pod-returns :
      (n fuel : ℕ) (h : History)
      → IsFinal (c.pod (polled n h) (get_pod namespace pod_name))
      → n < fuel
      → IsReturned (wait_for_pod_completion c namespace pod_name fuel h).0
  unfolding wait_for_pod_completion
  wait_for_pod-returns n zero h final lt = absurd (omega arith)
  wait_for_pod-returns zero (suc fuel) h final lt = ground arith
  wait_for_pod-returns (suc n) (suc fuel) h final lt =
      ground (arith, wait_for_pod-returns n fuel (get_pod namespace pod_name ∷ h))

  -- The wait ends well only on a poll that saw the pod succeeded, the last request it sent.
  pub wait_for_pod-ok :
      (fuel : ℕ) (h : History)
      → (wait_for_pod_completion c namespace pod_name fuel h).0 ≡ returns (ok tt)
      → (h' : History) × (pod : Pod) × (c.pod h' (get_pod namespace pod_name) ≡ ok pod)
        × (pod.phase ≡ succeeded)
        × ((wait_for_pod_completion c namespace pod_name fuel h).1
            ≡ get_pod namespace pod_name ∷ h')
  unfolding wait_for_pod_completion
  wait_for_pod-ok zero h p = absurd (ground arith)
  wait_for_pod-ok (suc fuel) h p = elim (Result-cases (c.pod h (get_pod namespace pod_name))) [
    | inr (e, r) ↦ absurd (ground arith)
    | inl (pod, r) ↦ elim (phase_cases pod.phase) [
      | inl good ↦ (h, pod, r, good, ground arith)
      | inr (inl bad) ↦ absurd (ground arith)
      | inr (inr on) ↦
          let (h', pod', seen, good, sent) =
            wait_for_pod-ok fuel (get_pod namespace pod_name ∷ h) (ground arith) in
          (h', pod', seen, good, ground arith)
    ]
  ]
