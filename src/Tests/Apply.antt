-- ===== src/Tests/Apply.antt =====
-- Examples for RunService, from the dependencies to the set that is sent.
use alustan.Base.{[], ◌∷◌}
use alustan.Types.{App}
use alustan.Service.Run.{Environment}
use alustan.Tests.Fixtures.{calm, web, surroundings_on}

abbrev pub greeting : App
greeting = record web {
  spec = record web.spec {
    source = record web.spec.source { values = ("greeting", "hello") ∷ [] };
  };
}

abbrev environment : Environment
environment = (surroundings_on calm).environment
