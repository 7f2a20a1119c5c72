-- ===== src/Controller/Process.antt =====
-- A running command: `RunLeader` of both controllers with its callbacks, the goroutine that
-- `OnStartedLeading` runs in, the workers, and the handler of signals of `main`, as goroutines that
-- interleave. The protocol of the election is that of client-go: a candidate may become the leader,
-- a leader may fail to renew, and then `OnStoppedLeading` runs and `RunLeader` returns.
pub mod Laws
pub mod Clients
pub mod Idle
use alustan.Base.{ℕ, Bool, true, false, Error, Result, ok, err, List, ◌≡◌, ◌≢◌, ◌<◌, String}
use alustan.Cluster.{Cluster, History, returns}
use alustan.Terraform.PostDeploy.{Json}
use alustan.Controller.Worker.{Resource, Cache, QueueObject, process_next_work_item}
use alustan.Controller.Session.{Session, start_leading, refresh_token}
use alustan.Controller.Pool.Steps
use alustan.Controller.Pool.Steps.{Crew, Manager, Move, selects, panicked}
use alustan.Controller.Boot.{Controller, per_worker}

-- Where `RunLeader` stands: it waits for the cache of the informer, it is a candidate, it leads, or
-- it has lost the leadership.
pub data Stage : Type 0 where
  syncing candidate leader deposed : Stage

-- Where the goroutine of `OnStartedLeading` stands: not yet started, before the clients are there,
-- or in `manageWorkers`.
pub data Starter : Type 0 where
  unstarted authenticating managing : Starter

-- `stop_closed` is whether the channel on which `main` waits is closed.
pub record Process : Type 0 where
  pub controller : Controller
  pub manager : Manager
  pub stage : Stage
  pub starter : Starter
  pub stop_closed : Bool

abbrev pub new_process : Controller → Process
new_process controller = record {
  controller = controller;
  manager = selects;
  stage = syncing;
  starter = unstarted;
  stop_closed = false;
}

abbrev pub with_session : Process → Session → Process
with_session p s = record p { controller = record p.controller { session = s } }

abbrev pub with_crew : Process → Crew → Manager → Process
with_crew p crew manager = record p {
  controller = record p.controller { crew = crew };
  manager = manager;
}

module _ {A S : Type 0} (c : Cluster) (J : Json) (R : Resource A S) where
  -- One step of some goroutine.
  pub data Step (p : Process) (h : History) : Process → History → Type 0 where
    -- `setupInformer` returns when the cache is there, and also when its wait is stopped.
    cache_waited : p.stage ≡ syncing → Step p h (record p { stage = candidate }) h
    acquired :
        p.stage ≡ candidate → Step p h (record p { stage = leader; starter = authenticating }) h
    authenticated :
        {s : Session} {h' : History}
        → p.starter ≡ authenticating
        → start_leading c J p.controller.kind p.controller.session h ≡ (returns (ok s), h')
        → Step p h (record (with_session p s) { starter = managing }) h'
    refreshed :
        {s : Session} {h' : History} (password : String)
        → 0 < p.controller.session.refreshers
        → refresh_token c J p.controller.kind p.controller.session password h ≡ (returns (ok s), h')
        → Step p h (with_session p s) h'
    managed :
        {crew : Crew} {manager : Manager}
        → p.starter ≡ managing
        → Steps.Step (per_worker p.controller.kind) p.controller.crew p.manager crew manager
        → crew.elector ≡ p.controller.crew.elector
        → Step p h (with_crew p crew manager) h
    worked :
        (cache : Cache) (item : QueueObject)
        → 0 < p.controller.crew.busy
        → Step p h p (process_next_work_item R cache item h).1
    renewal_failed : p.stage ≡ leader → Step p h (record p { stage = deposed }) h
    stopped_leading :
        {crew : Crew}
        → p.stage ≡ deposed
        → Move p.controller.crew p.manager crew p.manager
        → crew.elector ≢ p.controller.crew.elector
        → Step p h (with_crew p crew p.manager) h
    signalled : p.stop_closed ≡ false → Step p h (record p { stop_closed = true }) h

  -- The ways in which the process ends, with the exit code. `main` returns as soon as the channel is
  -- closed; the handler would sleep for a second before it ends the process.
  pub data Exits (p : Process) (h : History) : ℕ → Type 0 where
    main_returns : p.stop_closed ≡ true → Exits p h 0
    no_lock : p.stage ≡ candidate → Exits p h 1
    login_failed :
        {e : Error} {h' : History}
        → p.starter ≡ authenticating
        → start_leading c J p.controller.kind p.controller.session h ≡ (returns (err e), h')
        → Exits p h 1
    crashed : p.manager ≡ panicked → Exits p h 2

  -- The steps of a process that has not crashed.
  pub data Runs (p : Process) (h : History) : Process → History → Type 0 where
    here : Runs p h p h
    then_step :
        {p' p'' : Process} {h' h'' : History}
        → Runs p h p' h'
        → p'.manager ≢ panicked
        → Step p' h' p'' h''
        → Runs p h p'' h''
