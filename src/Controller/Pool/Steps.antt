-- ===== src/Controller/Pool/Steps.antt =====
-- `manageWorkers`, `runWorker` and `OnStoppedLeading` of both controllers as goroutines that
-- interleave in any order. The manager alone writes `numWorkers`, so that starting a worker and
-- counting it are one step.
pub mod Counted
pub mod Round
pub mod Ends
pub mod Blocked
use alustan.Base.{ℕ, zero, suc, ◌+◌, ◌-◌, ◌<◌, ◌≡◌, Bool, true, false, ◌&&◌, ltb, if◌then◌else◌}
use alustan.Controller.Pool.{Pool, new_pool, desired_workers}

-- What `OnStoppedLeading` has done: nothing, closed the channel of the workers, closed that of the
-- manager too, shut the queue down too.
pub data Elector : Type 0 where
  leading workers_told manager_told shut_down : Elector

-- `workerStopCh` and `managerStopCh`
abbrev pub workers_closed : Elector → Bool
workers_closed leading = false
workers_closed _ = true

abbrev pub manager_closed : Elector → Bool
manager_closed manager_told = true
manager_closed shut_down = true
manager_closed _ = false

-- A queue that is shut down takes no further keys.
abbrev pub queue_down : Elector → Bool
queue_down shut_down = true
queue_down _ = false

-- Where the manager stands: at its `select`, with workers left to start, before the test of the
-- stopping loop at `i`, at the send of its body, in its sleep, after its return, or after a send on
-- a closed channel, which ends the process.
pub data Manager : Type 0 where
  selects : Manager
  starting : ℕ → Manager
  stopping : (i desired : ℕ) → Manager
  sending : (i desired : ℕ) → Manager
  sleeping ended panicked : Manager

-- The counters, with the workers at their `select`, those in `processNextWorkItem`, and those that
-- have left since the leadership was lost; and how many keys are in the queue or with a worker.
pub record Crew : Type 0 where
  pub pool : Pool
  pub selecting : ℕ
  pub busy : ℕ
  pub gone : ℕ
  pub queued : ℕ
  pub elector : Elector

abbrev pub new_crew : Crew
new_crew = record {
  pool = new_pool;
  selecting = 0;
  busy = 0;
  gone = 0;
  queued = 0;
  elector = leading;
}

-- The start of a round, at the number that it reads and the one that it wants.
unfoldable pub first_phase : ℕ → ℕ → Manager
first_phase current desired =
    if ltb current desired
    then starting (desired - current)
    else if ltb desired current
    then stopping current desired
    else sleeping

-- One step of a goroutine, other than the start of a round. The channel of the workers has no
-- buffer: a message passes when a worker is at its `select`. A worker may also go on to its next
-- item then, as it does when the manager is not yet at the send. In `processNextWorkItem` a worker
-- waits in `Get` for a key, and without one it does not come back; when the queue is shut down and
-- empty, it leaves.
pub data Move (m : Crew) : Manager → Crew → Manager → Type 0 where
  spawn :
      {k : ℕ}
      → Move m
          (starting (suc k))
          (record m {
            pool = record m.pool {
              num_workers = m.pool.num_workers + 1;
              started = m.pool.started + 1;
            };
            selecting = m.selecting + 1;
          })
          (starting k)
  spawned : Move m (starting zero) m sleeping
  count :
      {i desired : ℕ}
      → (ltb desired i && ltb 1 i) ≡ true
      → Move m
          (stopping i desired)
          (record m { pool = record m.pool { num_workers = m.pool.num_workers - 1 } })
          (sending i desired)
  enough :
      {i desired : ℕ} → (ltb desired i && ltb 1 i) ≡ false → Move m (stopping i desired) m sleeping
  deliver :
      {i desired : ℕ}
      → workers_closed m.elector ≡ false
      → 0 < m.selecting
      → Move m
          (sending (suc i) desired)
          (record m {
            pool = record m.pool { stopped = m.pool.stopped + 1 };
            selecting = m.selecting - 1;
          })
          (stopping i desired)
  panic : {i desired : ℕ} → workers_closed m.elector ≡ true → Move m (sending i desired) m panicked
  wake : Move m sleeping m selects
  return : manager_closed m.elector ≡ true → Move m selects m ended
  take :
      {p : Manager}
      → workers_closed m.elector ≡ false
      → 0 < m.selecting
      → Move m p (record m { selecting = m.selecting - 1; busy = m.busy + 1 }) p
  go_on :
      {p : Manager}
      → 0 < m.busy
      → 0 < m.queued
      → Move m p
          (record m { selecting = m.selecting + 1; busy = m.busy - 1; queued = m.queued - 1 })
          p
  arrive :
      {p : Manager} → queue_down m.elector ≡ false → Move m p (record m { queued = m.queued + 1 }) p
  leave :
      {p : Manager}
      → workers_closed m.elector ≡ true
      → 0 < m.selecting
      → Move m p (record m { selecting = m.selecting - 1; gone = m.gone + 1 }) p
  drain :
      {p : Manager}
      → m.elector ≡ shut_down
      → m.queued ≡ 0
      → 0 < m.busy
      → Move m p (record m { busy = m.busy - 1; gone = m.gone + 1 }) p
  close_workers :
      {p : Manager} → m.elector ≡ leading → Move m p (record m { elector = workers_told }) p
  close_manager :
      {p : Manager} → m.elector ≡ workers_told → Move m p (record m { elector = manager_told }) p
  shut_queue :
      {p : Manager} → m.elector ≡ manager_told → Move m p (record m { elector = shut_down }) p

-- Any step; `per_worker` is that of `desired_workers`.
pub data Step (per_worker : ℕ) (m : Crew) : Manager → Crew → Manager → Type 0 where
  begin :
      (queue_length : ℕ)
      → manager_closed m.elector ≡ false
      → Step per_worker m selects m
          (first_phase m.pool.num_workers (desired_workers per_worker queue_length))
  move : {p q : Manager} {m' : Crew} → Move m p m' q → Step per_worker m p m' q

pub data Reach (per_worker : ℕ) : Crew → Manager → Type 0 where
  start : Reach per_worker new_crew selects
  later :
      {m m' : Crew} {p q : Manager}
      → Reach per_worker m p
      → Step per_worker m p m' q
      → Reach per_worker m' q

-- Steps of one round, after its start.
pub data Moves (m : Crew) (p : Manager) : Crew → Manager → Type 0 where
  here : Moves m p m p
  then_move : {m' m'' : Crew} {q r : Manager} → Moves m p m' q → Move m' q m'' r → Moves m p m'' r
