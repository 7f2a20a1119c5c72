-- ===== src/Controller/Pool.antt =====
-- `manageWorkers` of both controllers: the number of workers follows the length of the queue.
pub mod Laws
pub mod Steps
use alustan.Base.{ℕ, zero, suc, ◌+◌, ◌-◌, ◌/◌, ◌&&◌, List, [], ◌∷◌, ltb, if◌then◌else◌}

-- The pool: the counter `numWorkers`, and how many workers were started and told to stop so far.
pub record Pool : Type 0 where
  pub num_workers : ℕ
  pub started : ℕ
  pub stopped : ℕ

abbrev pub new_pool : Pool
new_pool = record { num_workers = 0; started = 0; stopped = 0 }

abbrev pub max_workers : ℕ
max_workers = 5

-- The wanted number; `per_worker` is 50 for applications and 20 for infrastructure.
unfoldable pub desired_workers : ℕ → ℕ → ℕ
desired_workers per_worker queue_length =
    let wanted = queue_length / per_worker + 1 in
    let capped = if ltb max_workers wanted then max_workers else wanted in
    if ltb capped 1 then 1 else capped

-- `for i := currentWorkers; i < desiredWorkers; i++`, by the rounds left.
unfoldable pub start_workers : ℕ → Pool → Pool
start_workers zero p = p
start_workers (suc rounds) p =
    start_workers rounds (record p { num_workers = p.num_workers + 1; started = p.started + 1 })

-- `for i := currentWorkers; i > desiredWorkers && i > 1; i--`
unfoldable pub stop_workers : ℕ → ℕ → Pool → Pool
stop_workers zero desired p = p
stop_workers (suc i) desired p =
    let rest =
      stop_workers i desired
        (record p { num_workers = p.num_workers - 1; stopped = p.stopped + 1 }) in
    if ltb desired (suc i) && ltb 1 (suc i) then rest else p

-- One round of the manager, at the length that the queue has then.
unfoldable pub manage_round : ℕ → ℕ → Pool → Pool
manage_round per_worker queue_length p =
    let current = p.num_workers in
    let desired = desired_workers per_worker queue_length in
    let grown = if ltb current desired then start_workers (desired - current) p else p in
    if ltb desired current then stop_workers current desired grown else grown

-- The manager's loop over the lengths that it finds, until it is stopped.
unfoldable pub manage_workers : ℕ → List ℕ → Pool → Pool
manage_workers per_worker [] p = p
manage_workers per_worker (queue_length ∷ rounds) p =
    manage_workers per_worker rounds (manage_round per_worker queue_length p)
