-- ===== src/Controller/Pool/Laws.antt =====
-- About manageWorkers of both controllers.
use alustan.Base.{ℕ, zero, suc, ◌+◌, ◌-◌, ◌≤◌, ◌≡◌, List, [], ◌∷◌, ◌++◌, arith}
use alustan.Controller.Pool.{
  Pool, new_pool, max_workers, desired_workers, start_workers, stop_workers, manage_round,
  manage_workers,
}

-- The counter is the number of workers started and not stopped.
abbrev pub IsBalanced : Pool → Type 0
IsBalanced p = p.num_workers + p.stopped ≡ p.started

pub desired_workers-bounds :
    (per_worker n : ℕ)
    → (1 ≤ desired_workers per_worker n) × (desired_workers per_worker n ≤ max_workers)
unfolding desired_workers
desired_workers-bounds per_worker n = ground arith

start_workers_lem :
    (rounds : ℕ) (p : Pool)
    → start_workers rounds p
      ≡ record p { num_workers = p.num_workers + rounds; started = p.started + rounds }
unfolding start_workers
start_workers_lem zero p = ground arith
start_workers_lem (suc rounds) p = ground (
  arith,
  start_workers_lem rounds (record p { num_workers = p.num_workers + 1; started = p.started + 1 }),
)

stop_workers_lem :
    (i desired : ℕ) (p : Pool)
    → 1 ≤ desired
    → desired ≤ i
    → i ≤ p.num_workers
    → stop_workers i desired p ≡ record p {
      num_workers = p.num_workers - (i - desired);
      stopped = p.stopped + (i - desired);
    }
unfolding stop_workers
stop_workers_lem zero desired p h k l = absurd (omega arith)
stop_workers_lem (suc i) desired p h k l = ground (
  arith,
  stop_workers_lem i desired
      (record p { num_workers = p.num_workers - 1; stopped = p.stopped + 1 }),
)

-- One round: between 1 and 5 workers, exactly as many as the queue asks for; the workers started or
-- stopped in the round are the difference to the number before, so the counter stays the number of
-- workers started and not stopped.
pub manage_round_lem :
    (per_worker queue_length : ℕ) (p : Pool)
    → IsBalanced p
    → let p' = manage_round per_worker queue_length p in
      let desired = desired_workers per_worker queue_length in
      IsBalanced p'
      × (p'.num_workers ≡ desired)
      × (1 ≤ p'.num_workers)
      × (p'.num_workers ≤ max_workers)
      × (p'.started ≡ p.started + (desired - p.num_workers))
      × (p'.stopped ≡ p.stopped + (p.num_workers - desired))
unfolding manage_round
manage_round_lem per_worker queue_length p balanced = ground (
  arith,
  desired_workers-bounds per_worker queue_length,
  start_workers_lem (desired_workers per_worker queue_length - p.num_workers) p,
  stop_workers_lem p.num_workers (desired_workers per_worker queue_length) p,
)

manage_workers_from :
    (per_worker : ℕ) (rounds : List ℕ) (queue_length : ℕ) (p : Pool)
    → IsBalanced p
    → let p' = manage_workers per_worker (rounds ++ queue_length ∷ []) p in
      (p'.num_workers ≡ desired_workers per_worker queue_length)
      × (p'.num_workers + p'.stopped ≡ p'.started)
unfolding manage_workers
manage_workers_from per_worker [] queue_length p balanced =
    let r = manage_round_lem per_worker queue_length p balanced in (r.1, r.0)
manage_workers_from per_worker (first ∷ rounds) queue_length p balanced =
    manage_workers_from per_worker rounds queue_length (manage_round per_worker first p)
      (manage_round_lem per_worker first p balanced).0

-- After any rounds from a new pool, the last of which found the queue at `queue_length`, the number
-- of workers that run is the number that this length asks for.
pub manage_workers_lem :
    (per_worker : ℕ) (rounds : List ℕ) (queue_length : ℕ)
    → let p = manage_workers per_worker (rounds ++ queue_length ∷ []) new_pool in
      (p.num_workers ≡ desired_workers per_worker queue_length)
      × (p.num_workers + p.stopped ≡ p.started)
manage_workers_lem per_worker rounds queue_length =
    manage_workers_from per_worker rounds queue_length new_pool (omega arith)
