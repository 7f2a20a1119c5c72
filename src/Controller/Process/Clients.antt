-- ===== src/Controller/Process/Clients.antt =====
-- Who works, and with which clients: no worker is started before Argo CD was ready and the clients
-- are there, and no channel is closed before the leadership is lost.
use alustan.Base.{
  ◌∙◌, ℕ, String, Option, none, some, Result, ◌≡◌, ◌≢◌, refl, sym, ap, subst, ◌<◌, arith,
}
use alustan.Cluster.{Cluster, Kind, History, Outcome, Holds}
use alustan.Terraform.PostDeploy.{Json}
use alustan.Controller.Worker.{Resource}
use alustan.Controller.Lister.{KeyFunctions}
use alustan.Controller.Session.{Session}
use alustan.Controller.Session.Clients.{
  IsThere, HasClients, Kept, start_leading-HasClients, refresh_token-Kept,
}
use alustan.Controller.Session.Steps.{IsIssued, IsIssuedClient}
use alustan.Controller.Session.Laws.{Reach-IsValid}
use alustan.Controller.Pool.Steps.{
  Crew, Manager, Move, leading, spawn, spawned, count, enough, deliver, panic, wake, return, take,
  go_on, arrive, leave, drain, close_workers, close_manager, shut_queue,
}
use alustan.Controller.Boot.{Constructors, new_controller}
use alustan.Controller.Boot.Laws.{WasReady, boot-ok}
use alustan.Controller.Process.{
  Process, new_process, Step, Runs, here, then_step, cache_waited, acquired, authenticated,
  refreshed, managed, worked, renewal_failed, stopped_leading, signalled, unstarted, authenticating,
  managing, Stage, Starter, syncing, candidate, leader, deposed,
}
use alustan.Controller.Process.Laws.{Reach, Reach-Follows}

-- A move that changes what the elector has done changes nothing of the pool.
Move-elector :
    {m m' : Crew} {p q : Manager} → Move m p m' q → m'.elector ≢ m.elector → m'.pool ≡ m.pool
Move-elector spawn changed = absurd (changed refl)
Move-elector spawned changed = refl
Move-elector (count on) changed = absurd (changed refl)
Move-elector (enough off) changed = refl
Move-elector (deliver is_open some_left) changed = absurd (changed refl)
Move-elector (panic closed) changed = refl
Move-elector wake changed = refl
Move-elector (return closed) changed = refl
Move-elector (take is_open some_left) changed = refl
Move-elector (go_on some_left key) changed = refl
Move-elector (arrive is_open) changed = refl
Move-elector (leave closed some_left) changed = refl
Move-elector (drain down empty some_left) changed = refl
Move-elector (close_workers e) changed = refl
Move-elector (close_manager e) changed = refl
Move-elector (shut_queue e) changed = refl

-- Before it leads, the process has not started the goroutine that makes the clients.
abbrev HasWaited : Stage → Starter → Type 0
HasWaited syncing starter = starter ≡ unstarted
HasWaited candidate starter = starter ≡ unstarted
HasWaited _ starter = Unit {0}

managing-HasWaited :
    (stage : Stage) (starter : Starter)
    → starter ≡ authenticating
    → HasWaited stage starter
    → HasWaited stage managing
managing-HasWaited syncing starter e w = cc (e, w)
managing-HasWaited candidate starter e w = cc (e, w)
managing-HasWaited leader starter e w = tt
managing-HasWaited deposed starter e w = tt

record IsSafe (p : Process) : Type 0 where
  clients : p.starter ≡ managing → HasClients p.controller.session
  none_before : p.starter ≢ managing → p.controller.crew.pool.started ≡ 0
  untold : p.stage ≢ deposed → p.controller.crew.elector ≡ leading
  waited : HasWaited p.stage p.starter

module _ {A S : Type 0} (c : Cluster) (J : Json) (R : Resource A S) where
  Step-IsSafe : {p p' : Process} {h h' : History} → Step c J R p h p' h' → IsSafe p → IsSafe p'
  Step-IsSafe {p} (cache_waited e) v = record {
    clients = v.clients;
    none_before = v.none_before;
    untold = λ _. v.untold (λ d. cc (d, e));
    waited = subst (λ s. HasWaited s p.starter) e v.waited;
  }
  Step-IsSafe {p} (acquired e) v = record {
    clients = λ m. cc m;
    none_before = λ _. v.none_before (λ m. cc (m, subst (λ s. HasWaited s p.starter) e v.waited));
    untold = λ _. v.untold (λ d. cc (d, e));
    waited = tt;
  }
  Step-IsSafe {p} {h = h} (authenticated e r) v = record {
    clients = λ _.
        subst (λ (r : Outcome Session × History). Holds HasClients r.0) r
          (start_leading-HasClients c J p.controller.kind p.controller.session h);
    none_before = λ n. absurd (n refl);
    untold = v.untold;
    waited = managing-HasWaited p.stage p.starter e v.waited;
  }
  Step-IsSafe {p} {h = h} (refreshed password some_run r) v = record {
    clients = λ m.
        subst (λ (r : Outcome Session × History). Holds (Kept p.controller.session) r.0) r
          (refresh_token-Kept c J p.controller.kind p.controller.session password h) (v.clients m);
    none_before = v.none_before;
    untold = v.untold;
    waited = v.waited;
  }
  Step-IsSafe (managed e st kept) v = record {
    clients = v.clients;
    none_before = λ n. absurd (n e);
    untold = λ d. kept ∙ v.untold d;
    waited = v.waited;
  }
  Step-IsSafe (worked cache item busy) v = v
  Step-IsSafe (renewal_failed e) v = record {
    clients = v.clients;
    none_before = v.none_before;
    untold = λ d. absurd (d refl);
    waited = tt;
  }
  Step-IsSafe (stopped_leading e mv changed) v = record {
    clients = v.clients;
    none_before = λ n. ap (λ q. q.started) (Move-elector mv changed) ∙ v.none_before n;
    untold = λ d. absurd (d e);
    waited = v.waited;
  }
  Step-IsSafe (signalled e) v = record {
    clients = v.clients;
    none_before = v.none_before;
    untold = v.untold;
    waited = v.waited;
  }

  Runs-IsSafe :
      {p : Process} {h : History} {p' : Process} {h' : History}
      → Runs c J R p h p' h'
      → IsSafe p
      → IsSafe p'
  Runs-IsSafe here v = v
  Runs-IsSafe (then_step r alive st) v = Step-IsSafe st (Runs-IsSafe r v)

  new-IsSafe :
      (kind : Kind) (K : KeyFunctions) (interval : ℕ)
      → IsSafe (new_process (new_controller kind K interval))
  unfolding new_controller
  new-IsSafe kind K interval = record {
    clients = λ m. cc m;
    none_before = λ _. refl;
    untold = λ _. refl;
    waited = refl;
  }

  started-managing :
      (p : Process) → IsSafe p → 0 < p.controller.crew.pool.started → p.starter ≡ managing
  started-managing p v some_left = by_starter p.starter refl
    where
      by_starter : (s : Starter) → p.starter ≡ s → p.starter ≡ managing
      by_starter managing e = e
      by_starter unstarted e = absurd (omega (arith, v.none_before (λ m. cc (m, e))))
      by_starter authenticating e = absurd (omega (arith, v.none_before (λ m. cc (m, e))))

  -- The client is there, and was made with a token that a login has returned.
  abbrev pub IsMade : Option String → Type 0
  IsMade client = (token : String) × (client ≡ some token) × IsIssued c J token

  made : (client : Option String) → IsThere client → IsIssuedClient c J client → IsMade client
  made none there issued = absurd there
  made (some token) there issued = (token, refl, issued)

  module _ {N : Constructors} {getenv : String → String} {parse_duration : String → Result ℕ}
      {kind : Kind} {K : KeyFunctions} {p : Process} {h : History}
      (r : Reach c J R N getenv parse_duration kind K p h) where
    reached-IsSafe : IsSafe p
    reached-IsSafe = Runs-IsSafe r.runs (
        subst (λ controller. IsSafe (new_process controller))
          (sym (boot-ok c N getenv parse_duration kind K r.start (ap (λ x. x.0) r.booted)).1)
          (new-IsSafe kind K _))

    -- In every state that a command can reach, however its goroutines interleave: if a worker was
    -- ever started, Argo CD had been answered as installed with all its deployments ready, and both
    -- clients that the work items use are there, each made with a token that some login returned.
    pub Reach-clients :
        0 < p.controller.crew.pool.started
        → WasReady c
          × IsMade p.controller.session.argo_client
          × IsMade p.controller.session.api_clients
    Reach-clients some_left =
        let there = reached-IsSafe.clients (started-managing p reached-IsSafe some_left) in
        let v = Reach-IsValid c J (Reach-Follows c J R r).session in
        (
          (boot-ok c N getenv parse_duration kind K r.start (ap (λ x. x.0) r.booted)).0,
          made p.controller.session.argo_client there.0 v.argo_issued,
          made p.controller.session.api_clients there.1 v.api_issued,
        )

    -- A signal does not stop the workers: as long as the leadership is not lost, no channel of the
    -- workers or of the manager is closed, whether or not `main` was told to stop.
    pub Reach-untold : p.stage ≢ deposed → p.controller.crew.elector ≡ leading
    Reach-untold = reached-IsSafe.untold
