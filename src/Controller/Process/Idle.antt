-- ===== src/Controller/Process/Idle.antt =====
-- About a process that has lost the leadership: `RunLeader` has returned, and `main` still waits.
use alustan.Base.{ℕ, true, ◌≡◌, refl, arith}
use alustan.Cluster.{Cluster, History}
use alustan.Terraform.PostDeploy.{Json}
use alustan.Controller.Worker.{Resource}
use alustan.Controller.Pool.Steps as Pool
use alustan.Controller.Pool.Steps.{
  Crew, Manager, Move, Elector, selects, ended, panicked, shut_down, workers_closed, spawn, spawned,
  count, enough, deliver, panic, wake, return, take, go_on, arrive, leave, drain, close_workers,
  close_manager, shut_queue, begin, move,
}
use alustan.Controller.Process.{
  Process, Step, Exits, Runs, here, then_step, cache_waited, acquired, authenticated, refreshed,
  managed, worked, renewal_failed, stopped_leading, signalled, managing, deposed, main_returns,
  no_lock, login_failed, crashed,
}

-- `OnStoppedLeading` has run, the manager has returned, and no worker is left.
pub record IsIdle (p : Process) : Type 0 where
  pub lost : p.stage ≡ deposed
  pub managed_once : p.starter ≡ managing
  pub returned : p.manager ≡ ended
  pub down : p.controller.crew.elector ≡ shut_down
  pub none_selecting : p.controller.crew.selecting ≡ 0
  pub none_busy : p.controller.crew.busy ≡ 0

Move-ended :
    {m m' : Crew} {q q' : Manager}
    → Move m q m' q'
    → q ≡ ended
    → m.elector ≡ shut_down
    → m.selecting ≡ 0
    → m.busy ≡ 0
    → ⊥
Move-ended spawn e d s b = cc e
Move-ended spawned e d s b = cc e
Move-ended (count on) e d s b = cc e
Move-ended (enough off) e d s b = cc e
Move-ended (deliver is_open some_left) e d s b = cc e
Move-ended (panic closed) e d s b = cc e
Move-ended wake e d s b = cc e
Move-ended (return closed) e d s b = cc e
Move-ended (take is_open some_left) e d s b = omega arith
Move-ended (go_on some_left key) e d s b = omega arith
Move-ended (arrive is_open) e d s b = cc (is_open, d)
Move-ended (leave closed some_left) e d s b = omega arith
Move-ended (drain down empty some_left) e d s b = omega arith
Move-ended (close_workers x) e d s b = cc (x, d)
Move-ended (close_manager x) e d s b = cc (x, d)
Move-ended (shut_queue x) e d s b = cc (x, d)

Step-ended :
    {n : ℕ} {m m' : Crew} {q q' : Manager}
    → Pool.Step n m q m' q'
    → q ≡ ended
    → m.elector ≡ shut_down
    → m.selecting ≡ 0
    → m.busy ≡ 0
    → ⊥
Step-ended (begin length is_open) e d s b = cc e
Step-ended (move mv) e d s b = Move-ended mv e d s b

module _ {A S : Type 0} (c : Cluster) (J : Json) (R : Resource A S) where
  Step-IsIdle : {p p' : Process} {h h' : History} → Step c J R p h p' h' → IsIdle p → IsIdle p'
  Step-IsIdle (cache_waited e) v = cc (e, v.lost)
  Step-IsIdle (acquired e) v = cc (e, v.lost)
  Step-IsIdle (authenticated e r) v = cc (e, v.managed_once)
  Step-IsIdle (refreshed password some_run r) v = record {
    lost = v.lost;
    managed_once = v.managed_once;
    returned = v.returned;
    down = v.down;
    none_selecting = v.none_selecting;
    none_busy = v.none_busy;
  }
  Step-IsIdle (managed e st kept) v =
      absurd (Step-ended st v.returned v.down v.none_selecting v.none_busy)
  Step-IsIdle (worked cache item busy) v = v
  Step-IsIdle (renewal_failed e) v = cc (e, v.lost)
  Step-IsIdle (stopped_leading e mv changed) v =
      absurd (Move-ended mv v.returned v.down v.none_selecting v.none_busy)
  Step-IsIdle (signalled e) v = record {
    lost = v.lost;
    managed_once = v.managed_once;
    returned = v.returned;
    down = v.down;
    none_selecting = v.none_selecting;
    none_busy = v.none_busy;
  }

  pub Runs-IsIdle :
      {p : Process} {h : History} {p' : Process} {h' : History}
      → Runs c J R p h p' h'
      → IsIdle p
      → IsIdle p'
  Runs-IsIdle here v = v
  Runs-IsIdle (then_step r alive st) v = Step-IsIdle st (Runs-IsIdle r v)

  Exits-IsIdle :
      {p : Process} {h : History} {code : ℕ}
      → Exits c J R p h code
      → IsIdle p
      → (code ≡ 0) × (p.stop_closed ≡ true)
  Exits-IsIdle (main_returns told) v = (refl, told)
  Exits-IsIdle (no_lock e) v = cc (e, v.lost)
  Exits-IsIdle (login_failed e r) v = cc (e, v.managed_once)
  Exits-IsIdle (crashed e) v = cc (e, v.returned)

  -- A process that has lost the leadership and whose workers have left stays so, whatever steps
  -- follow: it never is a candidate or a leader again and never takes another item, and it ends only
  -- on a signal, with the exit code 0.
  pub IsIdle-Exits :
      {p : Process} {h : History} {p' : Process} {h' : History} {code : ℕ}
      → IsIdle p
      → Runs c J R p h p' h'
      → Exits c J R p' h' code
      → IsIdle p' × (code ≡ 0) × (p'.stop_closed ≡ true)
  IsIdle-Exits v r x =
      let w = Runs-IsIdle r v in let (zero_code, told) = Exits-IsIdle x w in (w, zero_code, told)
