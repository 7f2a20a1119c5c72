-- ===== src/Tests/Pool.antt =====
-- Examples for the goroutines of the worker pool.
use alustan.Base.{ℕ, refl, ◌≡◌, ◌≢◌, ◌⊎◌, arith}
use alustan.Controller.Pool.{manage_round, desired_workers}
use alustan.Controller.Pool.Steps.{
  Crew, selects, sending, stopping, sleeping, panicked, starting, leading, workers_told, Reach,
  Moves, start, later, begin, move, spawn, spawned, count, take, wake, deliver, go_on, arrive,
  enough, close_workers, panic, here, then_move, new_crew, first_phase,
}
use alustan.Controller.Pool.Steps.Counted.{IsCounted, Reach-IsCounted}
use alustan.Controller.Pool.Steps.Round.{round-manage_round}
use alustan.Controller.Pool.Steps.Ends.{Ends, Reach-Ends}
use alustan.Controller.Pool.Steps.Blocked.{IsBlocked, Moves-IsBlocked}

abbrev crew_of : (num_workers started selecting busy : ℕ) → Crew
crew_of num_workers started selecting busy = record {
  pool = record { num_workers = num_workers; started = started; stopped = 0 };
  selecting = selecting;
  busy = busy;
  gone = 0;
  queued = 0;
  elector = leading;
}

both_started : Reach 20 (crew_of 2 2 2 0) (starting 0)
unfolding first_phase desired_workers
both_started =
    later {m = crew_of 1 1 1 0} {p = starting 1}
      (later {m = new_crew} {p = starting 2} (later start (begin 25 refl)) (move spawn))
      (move spawn)

both_busy : Reach 20 (crew_of 2 2 0 2) selects
both_busy =
    later
      (later (later (later both_started (move spawned)) (move (take refl (omega arith))))
        (move (take refl (omega arith))))
      (move wake)

one_told : Reach 20 (crew_of 1 2 0 2) (sending 2 1)
unfolding first_phase desired_workers
one_told =
    later {m = crew_of 2 2 0 2} {p = stopping 2 1} (later both_busy (begin 0 refl))
      (move (count refl))

Reach-IsCounted_example : IsCounted (crew_of 1 2 0 2) (sending 2 1)
Reach-IsCounted_example = Reach-IsCounted one_told

-- Both workers wait for a key, and the manager for one of them.
Moves-IsBlocked_example :
    (workers_told ≢ leading)
    ⊎ IsBlocked 2 1 (record (crew_of 1 2 0 2) { elector = workers_told }) (sending 2 1)
Moves-IsBlocked_example =
    Moves-IsBlocked 2 1 {m = crew_of 1 2 0 2} {p = sending 2 1}
      (then_move here (close_workers refl)) (tt, tt) (refl, refl, refl)

abbrev with_keys : ℕ → Crew → Crew
with_keys n m = record m { queued = n }

-- The manager waits for a worker while both have a key.
two_keys : Reach 20 (with_keys 2 (crew_of 1 2 0 2)) (sending 2 1)
two_keys = later (later one_told (move (arrive refl))) (move (arrive refl))

Reach-Ends_example : Ends (with_keys 2 (crew_of 1 2 0 2)) (sending 2 1)
Reach-Ends_example = Reach-Ends two_keys refl (omega arith) tt

-- The rest of that round, with a worker that comes back in its middle.
abbrev one_left : Crew
one_left = record (with_keys 1 (crew_of 1 2 0 1)) {
  pool = record { num_workers = 1; started = 2; stopped = 1 };
}

rest_of_round : Moves (with_keys 2 (crew_of 2 2 0 2)) (stopping 2 1) one_left sleeping
rest_of_round =
    then_move
      (then_move {q = sending 2 1}
        (then_move (then_move here (count refl)) (go_on (omega arith) (omega arith)))
        (deliver refl (omega arith)))
      (enough refl)

round-manage_round_example :
    one_left.pool ≡ manage_round 20 0 (record { num_workers = 2; started = 2; stopped = 0 })
unfolding first_phase desired_workers
round-manage_round_example =
    round-manage_round 20 0 {m = with_keys 2 (crew_of 2 2 0 2)} {m' = one_left} rest_of_round

-- The leadership is lost while the manager waits at its send: the process panics.
told_late : Reach 20 (record (crew_of 1 2 0 2) { elector = workers_told }) panicked
told_late = later (later one_told (move (close_workers refl))) (move (panic refl))
