-- ===== src/Controller/Process/Laws.antt =====
-- About a running command: what its goroutines do together.
use alustan.Base.{ap, sym, ℕ, String, Result, ok, ◌≡◌, refl, subst}
use alustan.Cluster.{Cluster, Kind, History, returns}
use alustan.Terraform.PostDeploy.{Json}
use alustan.Controller.Worker.{Resource}
use alustan.Controller.Lister.{KeyFunctions}
use alustan.Controller.Session.{start_leading, refresh_token}
use alustan.Controller.Session.Steps as Sessions
use alustan.Controller.Pool.Steps as Pool
use alustan.Controller.Boot.{Constructors, Controller, per_worker, new_controller, boot}
use alustan.Controller.Boot.Laws.{boot-ok}
use alustan.Controller.Process.{
  Process, new_process, Step, Runs, here, then_step, cache_waited, acquired, authenticated,
  refreshed, managed, worked, renewal_failed, stopped_leading, signalled,
}

module _ {A S : Type 0} (c : Cluster) (J : Json) (R : Resource A S) where
  -- The process of a command that came to its goroutines with this controller, and its steps.
  pub record Reach (N : Constructors) (getenv : String → String)
      (parse_duration : String → Result ℕ) (kind : Kind) (K : KeyFunctions) (p : Process)
      (h : History) : Type 0 where
    pub controller : Controller
    pub start : History
    pub launch : History
    pub booted : boot c N getenv parse_duration kind K start ≡ (returns (ok controller), launch)
    pub runs : Runs c J R (new_process controller) launch p h

  -- The session and the pool of the process are ones that each can reach by itself.
  pub record Follows (kind : Kind) (p : Process) (h : History) : Type 0 where
    pub same_kind : p.controller.kind ≡ kind
    pub session : Sessions.Reach c J kind p.controller.session h
    pub pool : Pool.Reach (per_worker kind) p.controller.crew p.manager

  Step-Follows :
      {kind : Kind} {p p' : Process} {h h' : History}
      → Step c J R p h p' h'
      → Follows kind p h
      → Follows kind p' h'
  Step-Follows (cache_waited e) v = record {
    same_kind = v.same_kind;
    session = v.session;
    pool = v.pool;
  }
  Step-Follows (acquired e) v = record {
    same_kind = v.same_kind;
    session = v.session;
    pool = v.pool;
  }
  Step-Follows {p = p} {h = h} (authenticated {s} {h'} e r) v = record {
    same_kind = v.same_kind;
    session = Sessions.steps v.session (
        Sessions.leads (
          subst (λ k. start_leading c J k p.controller.session h ≡ (returns (ok s), h')) v.same_kind
            r));
    pool = v.pool;
  }
  Step-Follows {p = p} {h = h} (refreshed {s} {h'} password some_run r) v = record {
    same_kind = v.same_kind;
    session = Sessions.steps v.session (
        Sessions.refreshes password some_run (
          subst (λ k. refresh_token c J k p.controller.session password h ≡ (returns (ok s), h'))
            v.same_kind r));
    pool = v.pool;
  }
  Step-Follows {p = p} (managed {crew} {manager} e st kept) v = record {
    same_kind = v.same_kind;
    session = v.session;
    pool = Pool.later v.pool (
        subst (λ k. Pool.Step (per_worker k) p.controller.crew p.manager crew manager) v.same_kind
          st);
  }
  Step-Follows (worked cache item busy) v = record {
    same_kind = v.same_kind;
    session = Sessions.steps v.session Sessions.elsewhere;
    pool = v.pool;
  }
  Step-Follows (renewal_failed e) v = record {
    same_kind = v.same_kind;
    session = v.session;
    pool = v.pool;
  }
  Step-Follows (stopped_leading e mv changed) v = record {
    same_kind = v.same_kind;
    session = v.session;
    pool = Pool.later v.pool (Pool.move mv);
  }
  Step-Follows (signalled e) v = record {
    same_kind = v.same_kind;
    session = v.session;
    pool = v.pool;
  }

  Runs-Follows :
      {kind : Kind} {p : Process} {h : History} {p' : Process} {h' : History}
      → Runs c J R p h p' h'
      → Follows kind p h
      → Follows kind p' h'
  Runs-Follows here v = v
  Runs-Follows (then_step r alive st) v = Step-Follows st (Runs-Follows r v)

  new-Follows :
      (kind : Kind) (K : KeyFunctions) (interval : ℕ) (h : History)
      → Follows kind (new_process (new_controller kind K interval)) h
  unfolding new_controller
  new-Follows kind K interval h = record {
    same_kind = refl;
    session = Sessions.starts h;
    pool = Pool.start;
  }

  module _ {N : Constructors} {getenv : String → String} {parse_duration : String → Result ℕ}
      {kind : Kind} {K : KeyFunctions} {p : Process} {h : History} where
    -- Every state that a command can reach is, in its session, one that the session reaches by its
    -- own steps, and in its workers one that the pool reaches by its own.
    pub Reach-Follows : Reach N getenv parse_duration kind K p h → Follows kind p h
    Reach-Follows r = Runs-Follows r.runs (
        subst (λ controller. Follows kind (new_process controller) r.launch)
          (sym (boot-ok c N getenv parse_duration kind K r.start (ap (λ x. x.0) r.booted)).1)
          (new-Follows kind K _ r.launch))
