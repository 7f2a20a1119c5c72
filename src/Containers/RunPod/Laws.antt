-- ===== src/Containers/RunPod/Laws.antt =====
-- About the requests of CreateOrUpdateRunPod.
use alustan.Base.{
  ◌∙◌, ap, sym, ◌⊎◌, refl, true, is_not_found, Error, List, Bool-cases, [], List-cases, inl, inr,
  Result-cases, err, ◌+◌, suc, ◌≤◌, Result, ℕ, String, ◌≡◌, ◌∷◌, ok, arith,
}
use alustan.Cluster.{
  call, pure, bind-run, update_pod, Cluster, Pod, History, returns, get_pod, delete_pod, create_pod,
}
use alustan.Containers.RunPod.{replace_pod, clear_existing, drop_finalizers}

-- How many pod deletions and creations a history holds.
abbrev pub deletions : History → ℕ
deletions [] = 0
deletions (delete_pod _ _ ∷ h) = suc (deletions h)
deletions (_ ∷ h) = deletions h

abbrev pub creations : History → ℕ
creations [] = 0
creations (create_pod _ _ ∷ h) = suc (creations h)
creations (_ ∷ h) = creations h

abbrev pub exists_flag : Result Pod → ℕ
exists_flag (ok _) = 1
exists_flag (err _) = 0

-- Whatever the server answers, CreateOrUpdateRunPod creates at most one pod, and deletes at most
-- one and only if the server reported one of that name.
pub replace_pod-bounded :
    (c : Cluster) (namespace : String) (pod : Pod) (h : History)
    → let h' = (replace_pod c namespace pod h).1 in
      (creations h' ≤ creations h + 1)
      × (deletions h' ≤ deletions h + exists_flag (c.pod h (get_pod namespace pod.name)))
unfolding replace_pod
replace_pod-bounded c namespace pod h = elim (Result-cases (c.pod h (get_pod namespace pod.name))) [
  | inr (e, r) ↦ ground arith
  | inl (old, r) ↦ elim (List-cases old.finalizers) [ inl e ↦ ground arith | inr e ↦ ground arith ]
]

module _ (c : Cluster) (namespace : String) (pod : Pod) where
  -- This pod was released from its finalizers, if it had any, with the acknowledgement of the server.
  abbrev pub IsReleased : Pod → History → History → Type 0
  IsReleased old h h' =
      ((old.finalizers ≡ []) × (h' ≡ h))
      ⊎ ((c.ack h (update_pod namespace (record old { finalizers = [] })) ≡ ok tt)
          × (h' ≡ update_pod namespace (record old { finalizers = [] }) ∷ h))

  -- There was no pod of this name, or there was one, and it was released and deleted.
  abbrev pub IsCleared : History → History → Type 0
  IsCleared h h' =
      let h₀ = get_pod namespace pod.name ∷ h in
      ((e : Error) × (c.pod h (get_pod namespace pod.name) ≡ err e)
        × (is_not_found e ≡ true)
        × (h' ≡ h₀))
      ⊎ ((old : Pod) × (h₁ : History) × (c.pod h (get_pod namespace pod.name) ≡ ok old)
          × IsReleased old h₀ h₁
          × (c.ack h₁ (delete_pod namespace old.name) ≡ ok tt)
          × (h' ≡ delete_pod namespace old.name ∷ h₁))

  -- The pod was created after that.
  abbrev pub IsReplaced : History → History → Type 0
  IsReplaced h h' =
      (h₁ : History) × IsCleared h h₁
      × (c.ack h₁ (create_pod namespace pod) ≡ ok tt)
      × (h' ≡ create_pod namespace pod ∷ h₁)

  drop_finalizers-IsReleased :
      (old : Pod) (finalizers : List String) (h h' : History)
      → old.finalizers ≡ finalizers
      → drop_finalizers c namespace old finalizers h ≡ (returns (ok tt), h')
      → IsReleased old h h'
  drop_finalizers-IsReleased old [] h h' e p = inl (e, ap (λ r. r.1) (sym p))
  drop_finalizers-IsReleased old (f ∷ fs) h h' e p = inr (cc p, ap (λ r. r.1) (sym p))

  clear_existing-IsCleared :
      (h h' : History) (existing : Result Pod)
      → c.pod h (get_pod namespace pod.name) ≡ existing
      → clear_existing c namespace existing (get_pod namespace pod.name ∷ h) ≡ (returns (ok tt), h')
      → IsCleared h h'
  clear_existing-IsCleared h h' (ok old) e p =
      let (u, h₁, released, deleted) =
        bind-run (drop_finalizers c namespace old old.finalizers)
          (λ _. call c.ack (delete_pod namespace old.name)) (get_pod namespace pod.name ∷ h) p in
      inr (
        old,
        h₁,
        e,
        drop_finalizers-IsReleased old old.finalizers (get_pod namespace pod.name ∷ h) h₁ refl
            released,
        cc deleted,
        ap (λ r. r.1) (sym deleted),
      )
  clear_existing-IsCleared h h' (err x) e p = elim (Bool-cases (is_not_found x)) [
    | inl gone ↦ inl (x, e, gone, ap (λ r. r.1) (sym (rw gone at p)))
    | inr other ↦ absurd (cc (rw other at p))
  ]

  -- On success the server had no pod of that name, or reported one, whose finalizers were dropped,
  -- if it had any, and which was deleted under its name in the namespace; then the pod that was
  -- asked for was created in the namespace, and its name is returned. Each of these requests was
  -- acknowledged, and nothing else was sent.
  pub replace_pod-ok :
      (h : History) (name : String)
      → (replace_pod c namespace pod h).0 ≡ returns (ok name)
      → (name ≡ pod.name) × IsReplaced h (replace_pod c namespace pod h).1
  unfolding replace_pod
  replace_pod-ok h name p =
      let run = replace_pod c namespace pod h in
      let p' : run ≡ (returns (ok name), run.1) = ap (λ o. (o, run.1)) p in
      let (u, h₁, cleared, rest) =
        bind-run (clear_existing c namespace (c.pod h (get_pod namespace pod.name))) _
          (get_pod namespace pod.name ∷ h) p' in
      let (v, h₂, created, last) =
        bind-run (call c.ack (create_pod namespace pod)) (λ _. pure pod.name) h₁ rest in
      (
        cc last,
        (
          h₁,
          clear_existing-IsCleared h h₁ (c.pod h (get_pod namespace pod.name)) refl cleared,
          cc created,
          ap (λ r. r.1) (sym last) ∙ ap (λ r. r.1) (sym created),
        ),
      )
