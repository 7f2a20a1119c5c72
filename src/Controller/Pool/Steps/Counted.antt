-- ===== src/Controller/Pool/Steps/Counted.antt =====
-- About the counters of the pool while its goroutines interleave.
use alustan.Base.{ℕ, ◌+◌, ◌<◌, ◌≤◌, ◌≡◌, arith, refl}
use alustan.Controller.Pool.{max_workers, desired_workers}
use alustan.Controller.Pool.Laws.{desired_workers-bounds}
use alustan.Controller.Pool.Steps.{
  wake, spawned, spawn, panicked, sleeping, first_phase, Step, Reach, begin, move, start, later,
  shut_queue, close_manager, close_workers, drain, leave, go_on, arrive, take, return, panic,
  deliver, enough, count, stopping, Move, leading, starting, sending, Manager, Crew,
}

-- A worker that is no longer counted, but not told yet.
abbrev pub pending : Manager → ℕ
pending (sending _ _) = 1
pending panicked = 1
pending _ = 0

-- What the counter is in each phase.
abbrev pub Fits : Manager → ℕ → Type 0
Fits (starting k) n = (1 ≤ n + k) × (n + k ≤ max_workers)
Fits (stopping i desired) n = (i ≡ n) × (1 ≤ desired) × (1 ≤ n) × (n ≤ max_workers)
Fits (sending i desired) n = (i ≡ n + 1) × (1 ≤ desired) × (1 ≤ n) × (n < max_workers)
Fits sleeping n = (1 ≤ n) × (n ≤ max_workers)
Fits _ n = n ≤ max_workers

pub record IsCounted (m : Crew) (p : Manager) : Type 0 where
  pub counted : m.pool.num_workers + pending p + m.pool.stopped ≡ m.pool.started
  pub live : m.selecting + m.busy + m.gone + m.pool.stopped ≡ m.pool.started
  pub stay : m.elector ≡ leading → m.gone ≡ 0
  pub fits : Fits p m.pool.num_workers

pub Move-IsCounted : {m m' : Crew} {p q : Manager} → Move m p m' q → IsCounted m p → IsCounted m' q
Move-IsCounted spawn v = record {
  counted = omega (arith, v.counted);
  live = omega (arith, v.live);
  stay = v.stay;
  fits = ground (arith, v.fits);
}
Move-IsCounted spawned v = record {
  counted = v.counted;
  live = v.live;
  stay = v.stay;
  fits = ground (arith, v.fits);
}
Move-IsCounted (count on) v = record {
  counted = ground (arith, v.counted, v.fits);
  live = v.live;
  stay = v.stay;
  fits = ground (arith, v.fits);
}
Move-IsCounted (enough off) v = record {
  counted = v.counted;
  live = v.live;
  stay = v.stay;
  fits = ground (arith, v.fits);
}
Move-IsCounted (deliver is_open some) v = record {
  counted = ground (arith, v.counted, v.fits);
  live = omega (arith, v.live);
  stay = v.stay;
  fits = ground (arith, v.fits);
}
Move-IsCounted (panic closed) v = record {
  counted = v.counted;
  live = v.live;
  stay = v.stay;
  fits = ground (arith, v.fits);
}
Move-IsCounted wake v = record {
  counted = v.counted;
  live = v.live;
  stay = v.stay;
  fits = ground (arith, v.fits);
}
Move-IsCounted (return closed) v = record {
  counted = v.counted;
  live = v.live;
  stay = v.stay;
  fits = v.fits;
}
Move-IsCounted (take is_open some) v = record {
  counted = v.counted;
  live = omega (arith, v.live);
  stay = v.stay;
  fits = v.fits;
}
Move-IsCounted (go_on some key) v = record {
  counted = v.counted;
  live = omega (arith, v.live);
  stay = v.stay;
  fits = v.fits;
}
Move-IsCounted (arrive is_open) v = record {
  counted = v.counted;
  live = v.live;
  stay = v.stay;
  fits = v.fits;
}
Move-IsCounted (leave closed some) v = record {
  counted = v.counted;
  live = omega (arith, v.live);
  stay = λ e. ground arith;
  fits = v.fits;
}
Move-IsCounted (drain down empty some) v = record {
  counted = v.counted;
  live = omega (arith, v.live);
  stay = λ e. cc (e, down);
  fits = v.fits;
}
Move-IsCounted (close_workers e) v = record {
  counted = v.counted;
  live = v.live;
  stay = λ e. cc e;
  fits = v.fits;
}
Move-IsCounted (close_manager e) v = record {
  counted = v.counted;
  live = v.live;
  stay = λ e. cc e;
  fits = v.fits;
}
Move-IsCounted (shut_queue e) v = record {
  counted = v.counted;
  live = v.live;
  stay = λ e. cc e;
  fits = v.fits;
}

first_phase-Fits :
    (current desired : ℕ)
    → current ≤ max_workers
    → 1 ≤ desired
    → desired ≤ max_workers
    → Fits (first_phase current desired) current
unfolding first_phase
first_phase-Fits current desired p q r = ground arith

first_phase-pending : (current desired : ℕ) → pending (first_phase current desired) ≡ 0
unfolding first_phase
first_phase-pending current desired = ground arith

pub Step-IsCounted :
    {per_worker : ℕ} {m m' : Crew} {p q : Manager}
    → Step per_worker m p m' q
    → IsCounted m p
    → IsCounted m' q
Step-IsCounted {per_worker} {m} (begin n is_open) v =
    let desired = desired_workers per_worker n in
    let (low, high) = desired_workers-bounds per_worker n in
    record {
      counted = omega (arith, first_phase-pending m.pool.num_workers desired, v.counted);
      live = v.live;
      stay = v.stay;
      fits = first_phase-Fits m.pool.num_workers desired v.fits low high;
    }
Step-IsCounted (move mv) v = Move-IsCounted mv v

-- However the manager, the workers and the elector interleave: `numWorkers`, with the worker that
-- is being told, is the number of workers started and not told to stop; it is at most 5, and at
-- least 1 when a round ends; and until the leadership is lost, just these workers run.
pub Reach-IsCounted :
    {per_worker : ℕ} {m : Crew} {p : Manager} → Reach per_worker m p → IsCounted m p
Reach-IsCounted start = record { counted = refl; live = refl; stay = λ _. refl; fits = omega arith }
Reach-IsCounted (later r st) = Step-IsCounted st (Reach-IsCounted r)
