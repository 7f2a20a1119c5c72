-- ===== src/Tests/Process.antt =====
-- Examples for the commands of the controllers, from `main` to the first worker.
use alustan.Base.{ℕ, String, true, false, some, ok, [], ◌≡◌, refl, arith}
use alustan.Cluster.{Cluster, terraforms, returns, History}
use alustan.ArgoReady.{is_argo_installed_and_ready}
use alustan.Controller.Boot.{
  Constructors, Controller, new_controller, boot, boot_terraform_controller,
}
use alustan.Controller.Boot.Laws.{WasReady}
use alustan.Controller.Session.{new_session, Session, start_leading}
use alustan.Controller.Infra.{terraform_resource}
use alustan.Controller.Pool.{desired_workers}
use alustan.Controller.Pool.Steps.{
  starting, begin, move, spawn, first_phase, ended, new_crew, shut_down,
}
use alustan.Controller.Process.{
  Process, new_process, Runs, here, then_step, cache_waited, acquired, authenticated, managed,
  signalled, main_returns, managing, leader, deposed,
}
use alustan.Controller.Process.Laws.{Reach}
use alustan.Controller.Process.Clients.{IsMade, Reach-clients}
use alustan.Controller.Process.Idle.{IsIdle, IsIdle-Exits}
use alustan.Tests.Fixtures.{setup_on, always, shop, calm}
use alustan.Tests.Session.{logged_in, token_json, shop_keys}

abbrev ready : Cluster
ready = record logged_in { deployment = λ h q. ok (record { ready_replicas = 1; replicas = 1 }) }

abbrev constructors : Constructors
constructors = record { in_cluster_config = ok tt; clientset = ok tt; dynamic_client = ok tt }

abbrev no_variable : String → String
no_variable name = ""

abbrev booted : Controller
booted = new_controller terraforms shop_keys 360

abbrev launch : History
launch = (boot ready constructors no_variable (λ s. ok 1) terraforms shop_keys []).1

boot_test :
    boot ready constructors no_variable (λ s. ok 1) terraforms shop_keys []
    ≡ (returns (ok booted), launch)
unfolding boot_terraform_controller new_controller is_argo_installed_and_ready
boot_test = refl

abbrev leads : Process
leads = record (new_process booted) { stage = leader; starter = managing }

-- The session after the login, and the history.
abbrev logged : Session
logged = record { token = "t1"; argo_client = some "t1"; api_clients = some "t1"; refreshers = 1 }

abbrev after_login : History
after_login = (start_leading logged_in token_json terraforms new_session launch).1

-- One worker runs.
abbrev works : Process
works = record {
  controller = record booted {
    session = logged;
    crew = record new_crew {
      pool = record { num_workers = 1; started = 1; stopped = 0 };
      selecting = 1;
    };
  };
  manager = starting 0;
  stage = leader;
  starter = managing;
  stop_closed = false;
}

first_worker :
    Runs ready token_json
      (terraform_resource (setup_on calm) (always shop))
      (new_process booted)
      launch
      works
      after_login
unfolding start_leading new_controller first_phase desired_workers
first_worker =
    then_step
      (then_step
        (then_step
          (then_step (then_step here (λ e. cc e) (cache_waited refl)) (λ e. cc e) (acquired refl))
          (λ e. cc e) (authenticated refl refl))
        (λ e. cc e) (managed {manager = starting 1} refl (begin 0 refl) refl))
      (λ e. cc e) (managed refl (move spawn) refl)

first_worker-Reach :
    Reach ready token_json
      (terraform_resource (setup_on calm) (always shop))
      constructors
      no_variable
      (λ s. ok 1)
      terraforms
      shop_keys
      works
      after_login
first_worker-Reach = record {
  controller = booted;
  start = [];
  launch = launch;
  booted = boot_test;
  runs = first_worker;
}

Reach-clients_example :
    WasReady ready
    × IsMade ready token_json (terraform_resource (setup_on calm) (always shop)) (some "t1")
    × IsMade ready token_json (terraform_resource (setup_on calm) (always shop)) (some "t1")
Reach-clients_example =
    Reach-clients ready token_json (terraform_resource (setup_on calm) (always shop))
      first_worker-Reach (omega arith)

-- The leadership is lost, and all goroutines but `main` and the refreshing one are gone.
abbrev alone : Process
alone = record works {
  controller = record booted {
    session = logged;
    crew = record new_crew {
      pool = record { num_workers = 1; started = 1; stopped = 0 };
      gone = 1;
      elector = shut_down;
    };
  };
  manager = ended;
  stage = deposed;
}

alone-IsIdle : IsIdle alone
alone-IsIdle = record {
  lost = refl;
  managed_once = refl;
  returned = refl;
  down = refl;
  none_selecting = refl;
  none_busy = refl;
}

IsIdle-Exits_example :
    IsIdle (record alone { stop_closed = true }) × (◌≡◌ {A = ℕ} 0 0) × (true ≡ true)
IsIdle-Exits_example =
    IsIdle-Exits ready token_json (terraform_resource (setup_on calm) (always shop))
      {h = after_login} alone-IsIdle (then_step here (λ e. cc e) (signalled refl))
      (main_returns refl)
