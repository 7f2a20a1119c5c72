-- ===== src/Controller/Pool/Steps/Round.antt =====
-- About one round of the manager while the workers go on.
use alustan.Base.{ℕ, zero, suc, ◌+◌, ◌≡◌, arith}
use alustan.Controller.Pool.{Pool, desired_workers, start_workers, stop_workers, manage_round}
use alustan.Controller.Pool.Steps.{
  wake, spawned, spawn, panicked, sleeping, first_phase, shut_queue, close_manager, close_workers,
  drain, leave, go_on, arrive, take, return, panic, deliver, enough, count, stopping, Move,
  starting, sending, Manager, Crew, Moves, here, then_move,
}

-- Where the rest of the round leads, by the functions of the sequential description.
abbrev Leads : Manager → Pool → Pool → Type 0
Leads (starting k) p t = start_workers k p ≡ t
Leads (stopping i desired) p t = stop_workers i desired p ≡ t
Leads (sending zero desired) p t = ⊥
Leads (sending (suc i) desired) p t =
    stop_workers i desired (record p { stopped = p.stopped + 1 }) ≡ t
Leads panicked p t = Unit {0}
Leads _ p t = p ≡ t

Move-Leads :
    {m m' : Crew} {p q : Manager} (t : Pool) → Move m p m' q → Leads p m.pool t → Leads q m'.pool t
unfolding start_workers stop_workers
Move-Leads t spawn l = l
Move-Leads t spawned l = l
Move-Leads t (count {i = zero} on) l = absurd (ground (arith, on))
Move-Leads t (count {i = suc i} on) l = ground (arith, on, l)
Move-Leads t (enough {i = zero} off) l = l
Move-Leads t (enough {i = suc i} off) l = ground (arith, off, l)
Move-Leads t (deliver is_open some) l = l
Move-Leads t (panic closed) l = tt
Move-Leads t wake l = l
Move-Leads t (return closed) l = l
Move-Leads t (take is_open some) l = l
Move-Leads t (go_on some key) l = l
Move-Leads t (arrive is_open) l = l
Move-Leads t (leave closed some) l = l
Move-Leads t (drain down empty some) l = l
Move-Leads t (close_workers e) l = l
Move-Leads t (close_manager e) l = l
Move-Leads t (shut_queue e) l = l

Moves-Leads :
    (t : Pool) {m : Crew} {p : Manager} {m' : Crew} {q : Manager}
    → Moves m p m' q
    → Leads p m.pool t
    → Leads q m'.pool t
Moves-Leads t here l = l
Moves-Leads t (then_move ms mv) l = Move-Leads t mv (Moves-Leads t ms l)

first_phase-Leads :
    (per_worker n : ℕ) (p : Pool)
    → Leads
        (first_phase p.num_workers (desired_workers per_worker n))
        p
        (manage_round per_worker n p)
unfolding first_phase manage_round
first_phase-Leads per_worker n p = ground arith

-- However the workers and the elector interleave with a round that began at `queue_length`: when the
-- manager comes to its sleep, the counters are those that the sequential round computes from the
-- counters at its start.
pub round-manage_round :
    (per_worker queue_length : ℕ) {m m' : Crew}
    → Moves m (first_phase m.pool.num_workers (desired_workers per_worker queue_length)) m' sleeping
    → m'.pool ≡ manage_round per_worker queue_length m.pool
round-manage_round per_worker queue_length {m} ms =
    Moves-Leads (manage_round per_worker queue_length m.pool) ms
      (first_phase-Leads per_worker queue_length m.pool)
