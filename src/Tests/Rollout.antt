-- ===== src/Tests/Rollout.antt =====
-- An example for an app whose work item ends well, with a tag from the registry.
use alustan.Base.{[], ◌∷◌, ok, ℕ}
use alustan.Cluster.{History}
use alustan.Controller.Worker.{key}
use alustan.Controller.Application.{Surroundings, process_next_app}
use alustan.Tests.Apply.{greeting}
use alustan.Tests.Fixtures.{calm, surroundings_on, always, one_key, plain_tags}

abbrev published : Surroundings ℕ
published = record (surroundings_on calm) {
  tag_decoding = record plain_tags { ghcr_tags = λ s. ok ("1.1.0" ∷ "2.0.0" ∷ []) };
  environment = record (surroundings_on calm).environment { getenv = λ name. "secret" };
}

abbrev after_item : History
after_item = (process_next_app published (always greeting) one_key (key "default/shop") []).1
