-- ===== src/Kube/Finalizer/Laws.antt =====
-- What AddFinalizer and RemoveFinalizer write, and how often they try.
use alustan.Base.{
  subst, Bool-cases, refl, ◌∙◌, ap, inr, inl, [], Result-cases, ◌∷◌, ◌++◌, ◌⊎◌, true, List, ok,
  String, ◌≡◌, false, arith, Error, err, is_conflict,
}
use alustan.Util.Slices.{contains_string-split, remove_string-append}
use alustan.Util.{remove_string}
use alustan.Cluster.{update_object, get_object, Cluster, Kind, History, returns}
use alustan.Kube.Retry.{Retry, Unstructured, on_error-once}
use alustan.Kube.Finalizer.{
  finalizer_name, contains_string, finalizers_path, write_back, Fields, add_finalizer_once,
  remove_finalizer_once, add_finalizer, remove_finalizer,
}

module _ (c : Cluster) (U : Unstructured) (kind : Kind) (name namespace : String) where
  add_finalizer_once-conflict :
      (h : History) (e : Error)
      → (add_finalizer_once c U kind name namespace h).0 ≡ returns (err e)
      → is_conflict e ≡ false
  unfolding add_finalizer_once
  add_finalizer_once-conflict h e p = ground arith

  remove_finalizer_once-conflict :
      (h : History) (e : Error)
      → (remove_finalizer_once c U kind name namespace h).0 ≡ returns (err e)
      → is_conflict e ≡ false
  unfolding remove_finalizer_once
  remove_finalizer_once-conflict h e p = ground arith

module _ (c : Cluster) (R : Retry) (U : Unstructured) (kind : Kind) (name namespace : String) where
  -- Both closures hide the reason of every error behind `%v`, so a conflict is never seen as one:
  -- whatever the server answers, AddFinalizer and RemoveFinalizer run their closure exactly once.
  pub finalizers_never_retry :
      (h : History)
      → (add_finalizer c R U kind name namespace h ≡ add_finalizer_once c U kind name namespace h)
        × (remove_finalizer c R U kind name namespace h
            ≡ remove_finalizer_once c U kind name namespace h)
  unfolding add_finalizer remove_finalizer
  finalizers_never_retry h = (
    on_error-once R is_conflict _ h (add_finalizer_once-conflict c U kind name namespace),
    on_error-once R is_conflict _ h (remove_finalizer_once-conflict c U kind name namespace),
  )

-- A history in which `namespace/name` has been read as `object` and not been written.
abbrev pub Read : Cluster → Kind → String → String → History → Fields → History → Type 0
Read c kind name namespace h object h' =
    (c.object h (get_object kind namespace name) ≡ ok object)
    × (h' ≡ get_object kind namespace name ∷ h)

-- A history in which it has been read as `object`, and then the object that the library makes of it
-- with these finalizers was sent and acknowledged.
abbrev pub Rewritten :
    Cluster
    → Unstructured
    → Kind
    → String
    → String
    → History
    → Fields
    → List String
    → History
    → Type 0
Rewritten c U kind name namespace h object finalizers h' =
    (object' : Fields) × (c.object h (get_object kind namespace name) ≡ ok object)
    × (U.set_nested_string_slice object finalizers finalizers_path ≡ ok object')
    × (U.nested_string_slice object' finalizers_path ≡ finalizers)
    × (c.ack (get_object kind namespace name ∷ h) (update_object kind namespace object') ≡ ok tt)
    × (h' ≡ update_object kind namespace object' ∷ get_object kind namespace name ∷ h)

module _ (c : Cluster) (U : Unstructured) (kind : Kind) (name namespace : String) where
  write_back-ok :
      (object : Fields) (finalizers : List String) (h : History)
      → (write_back c U kind name namespace object finalizers h).0 ≡ returns (ok tt)
      → (object' : Fields) × (U.set_nested_string_slice object finalizers finalizers_path
          ≡ ok object')
        × (c.ack h (update_object kind namespace object') ≡ ok tt)
        × ((write_back c U kind name namespace object finalizers h).1
            ≡ update_object kind namespace object' ∷ h)
  unfolding write_back
  write_back-ok object finalizers h p =
      elim (Result-cases (U.set_nested_string_slice object finalizers finalizers_path)) [
        | inl (object', e) ↦ elim (Result-cases (c.ack h (update_object kind namespace object'))) [
          | inl (u, sent) ↦ (object', e, sent, rw e refl)
          | inr (x, sent) ↦ absurd (ground arith)
        ]
        | inr (e, q) ↦ absurd (ground arith)
      ]

  -- The object that was read, and the one that was sent in its place.
  written-Rewritten :
      (object : Fields) (finalizers : List String) (h h' : History)
      → c.object h (get_object kind namespace name) ≡ ok object
      → let h₁ = get_object kind namespace name ∷ h in
        let r = write_back c U kind name namespace object finalizers h₁ in
        r.0 ≡ returns (ok tt) → h' ≡ r.1 → Rewritten c U kind name namespace h object finalizers h'
  written-Rewritten object finalizers h h' got p same =
      let (object', set, acked, sent) =
        write_back-ok object finalizers (get_object kind namespace name ∷ h) p in
      (
        object',
        got,
        set,
        U.slice-set object finalizers finalizers_path object' set,
        acked,
        same ∙ sent,
      )

module _ (c : Cluster) (R : Retry) (U : Unstructured) (kind : Kind) (name namespace : String) where
  -- When AddFinalizer returns nil it has read the object, and either the finalizer was there and
  -- nothing was sent, or it was missing and this object was sent once, with its finalizers in their
  -- order and the new one behind them, and acknowledged.
  pub add_finalizer-ok :
      (h : History)
      → (add_finalizer c R U kind name namespace h).0 ≡ returns (ok tt)
      → (object : Fields) × (let slice = U.nested_string_slice object finalizers_path in
          let h' = (add_finalizer c R U kind name namespace h).1 in
          ((contains_string slice (finalizer_name kind) ≡ true)
            × Read c kind name namespace h object h')
          ⊎ ((contains_string slice (finalizer_name kind) ≡ false)
              × Rewritten c U kind name namespace h object (slice ++ finalizer_name kind ∷ []) h'))
  unfolding add_finalizer_once
  add_finalizer-ok h = rw ((finalizers_never_retry c R U kind name namespace h).0) λ p.
      elim (Result-cases (c.object h (get_object kind namespace name))) [
        | inl (object, e) ↦ (
          object,
          elim (Bool-cases (
              contains_string (U.nested_string_slice object finalizers_path)
                (finalizer_name kind))) [
                  | inl there ↦ inl (there, (e, ground arith))
                  | inr missing ↦ inr (
                    missing,
                    written-Rewritten c U kind name namespace object
                        (U.nested_string_slice object finalizers_path ++ finalizer_name kind ∷ []) h
                        _ e (ground arith) (ground arith),
                  )
                ],
        )
        | inr (e, q) ↦ absurd (ground arith)
      ]

  -- When RemoveFinalizer returns nil it has read the object, and either the finalizer was missing
  -- and nothing was sent, or it was there and this object was sent once, without the first
  -- occurrence of the finalizer and with all its other finalizers in their order, and acknowledged.
  pub remove_finalizer-ok :
      (h : History)
      → (remove_finalizer c R U kind name namespace h).0 ≡ returns (ok tt)
      → (object : Fields) × (let slice = U.nested_string_slice object finalizers_path in
          let h' = (remove_finalizer c R U kind name namespace h).1 in
          ((contains_string slice (finalizer_name kind) ≡ false)
            × Read c kind name namespace h object h')
          ⊎ ((pre post : List String) × (slice ≡ pre ++ finalizer_name kind ∷ post)
              × (contains_string pre (finalizer_name kind) ≡ false)
              × Rewritten c U kind name namespace h object (pre ++ post) h'))
  unfolding remove_finalizer_once
  remove_finalizer-ok h = rw ((finalizers_never_retry c R U kind name namespace h).1) λ p.
      elim (Result-cases (c.object h (get_object kind namespace name))) [
        | inl (object, e) ↦ (
          object,
          elim (Bool-cases (
              contains_string (U.nested_string_slice object finalizers_path)
                (finalizer_name kind))) [
                  | inl there ↦
                      let slice = U.nested_string_slice object finalizers_path in
                      let (pre, post, split, fresh) =
                        contains_string-split slice (finalizer_name kind) there in
                      let removed : remove_string slice (finalizer_name kind) ≡ pre ++ post =
                        ap (λ s. remove_string s (finalizer_name kind)) split
                        ∙ remove_string-append pre post (finalizer_name kind) fresh in
                      inr (
                        pre,
                        post,
                        split,
                        fresh,
                        subst
                            (λ s.
                              Rewritten c U kind name namespace h object s
                                (remove_finalizer_once c U kind name namespace h).1)
                            removed
                            (written-Rewritten c U kind name namespace object
                              (remove_string slice (finalizer_name kind)) h _ e (ground arith)
                              (ground arith)),
                      )
                  | inr missing ↦ inl (missing, (e, ground arith))
                ],
        )
        | inr (e, q) ↦ absurd (ground arith)
      ]
