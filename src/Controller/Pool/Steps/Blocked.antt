-- ===== src/Controller/Pool/Steps/Blocked.antt =====
-- About a manager that waits at its send for workers that wait for a key.
use alustan.Base.{ℕ, ◌≡◌, ◌≢◌, ◌⊎◌, inl, inr, arith}
use alustan.Controller.Pool.Steps.{
  spawned, spawn, go_on, arrive, deliver, enough, count, Move, leading, sending, Manager, Crew,
  Moves, here, then_move, panic, wake, return, take, leave, drain, close_workers, close_manager,
  shut_queue,
}
use alustan.Controller.Pool.Steps.Ends.{IsInternal, AreInternal}

-- The leadership does not come back.
Move-lost :
    {m m' : Crew} {p q : Manager} → Move m p m' q → m.elector ≢ leading → m'.elector ≢ leading
Move-lost spawn lost = lost
Move-lost spawned lost = lost
Move-lost (count on) lost = lost
Move-lost (enough off) lost = lost
Move-lost (deliver is_open some) lost = lost
Move-lost (panic closed) lost = lost
Move-lost wake lost = lost
Move-lost (return closed) lost = lost
Move-lost (take is_open some) lost = lost
Move-lost (go_on some key) lost = lost
Move-lost (arrive is_open) lost = lost
Move-lost (leave closed some) lost = lost
Move-lost (drain down empty some) lost = lost
Move-lost (close_workers e) lost = λ x. cc x
Move-lost (close_manager e) lost = λ x. cc x
Move-lost (shut_queue e) lost = λ x. cc x

module _ (i desired : ℕ) where
  -- The manager is at its send, every worker is in processNextWorkItem, and there is no key.
  abbrev pub IsBlocked : Crew → Manager → Type 0
  IsBlocked m p = (p ≡ sending i desired) × (m.selecting ≡ 0) × (m.queued ≡ 0)

  Move-IsBlocked :
      {m m' : Crew} {p q : Manager} (mv : Move m p m' q)
      → IsInternal mv
      → IsBlocked m p
      → (m'.elector ≢ leading) ⊎ IsBlocked m' q
  Move-IsBlocked spawn i (p, s, n) = absurd (cc p)
  Move-IsBlocked spawned i (p, s, n) = absurd (cc p)
  Move-IsBlocked (count on) i (p, s, n) = absurd (cc p)
  Move-IsBlocked (enough off) i (p, s, n) = absurd (cc p)
  Move-IsBlocked (deliver is_open some) i (p, s, n) = absurd (omega arith)
  Move-IsBlocked (panic closed) i b = inl (λ e. ground arith)
  Move-IsBlocked wake i (p, s, n) = absurd (cc p)
  Move-IsBlocked (return closed) i (p, s, n) = absurd (cc p)
  Move-IsBlocked (take is_open some) i (p, s, n) = absurd (omega arith)
  Move-IsBlocked (go_on some key) i (p, s, n) = absurd (omega arith)
  Move-IsBlocked (arrive is_open) i (p, s, n) = absurd i
  Move-IsBlocked (leave closed some) i (p, s, n) = absurd (omega arith)
  Move-IsBlocked (drain down empty some) i b = inl (λ e. cc (down, e))
  Move-IsBlocked (close_workers x) i b = inl (λ y. cc y)
  Move-IsBlocked (close_manager x) i b = inl (λ y. cc y)
  Move-IsBlocked (shut_queue x) i b = inl (λ y. cc y)

  -- When the manager is at its send, all workers are in processNextWorkItem, and no key is in the
  -- queue or with a worker, the manager stays there, with all of them, for as long as no key arrives
  -- and the leadership is not lost.
  pub Moves-IsBlocked :
      {m : Crew} {p : Manager} {m' : Crew} {q : Manager} (ms : Moves m p m' q)
      → AreInternal ms
      → IsBlocked m p
      → (m'.elector ≢ leading) ⊎ IsBlocked m' q
  Moves-IsBlocked here internal b = inr b
  Moves-IsBlocked (then_move ms mv) (internal, last) b = elim (Moves-IsBlocked ms internal b) [
    | inl lost ↦ inl (Move-lost mv lost)
    | inr blocked ↦ Move-IsBlocked mv last blocked
  ]
