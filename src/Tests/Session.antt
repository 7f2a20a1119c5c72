-- ===== src/Tests/Session.antt =====
-- Examples for the session of a controller, and the keys of its informer.
use alustan.Base.{some, ok, [], ◌∷◌, refl, arith}
use alustan.Value.{field, text, end}
use alustan.Cluster.{Cluster, terraforms, History}
use alustan.Terraform.PostDeploy.{Json}
use alustan.Controller.Session.{Session, new_session, start_leading, refresh_token}
use alustan.Controller.Session.Steps.{IsValid, Reach, starts, steps, leads, refreshes}
use alustan.Controller.Session.Laws.{Reach-IsValid}
use alustan.Controller.Lister.{KeyFunctions}
use alustan.Tests.Fixtures.{calm}

-- A cluster with the initial secret of Argo CD.
abbrev pub logged_in : Cluster
logged_in = record calm {
  secret = λ h q. ok (record {
    name = "argocd-initial-admin-secret";
    namespace = "argocd";
    labels = [];
    annotations = [];
    content = some (("password", "p") ∷ []);
    secret_type = "Opaque";
  });
}

abbrev pub token_json : Json
token_json = record {
  marshal = λ v. ok "{}";
  unmarshal_map = λ s. ok (field "token" (text "t1") end);
}

abbrev leader : Session
leader = record { token = "t1"; argo_client = some "t1"; api_clients = some "t1"; refreshers = 1 }

abbrev after_start : History
after_start = (start_leading logged_in token_json terraforms new_session []).1

leader-Reach :
    Reach logged_in token_json terraforms leader
      (refresh_token logged_in token_json terraforms leader "p" after_start).1
unfolding start_leading refresh_token
leader-Reach = steps (steps (starts []) (leads refl)) (refreshes "p" (omega arith) refl)

Reach-IsValid_example : IsValid logged_in token_json leader
Reach-IsValid_example = Reach-IsValid logged_in token_json leader-Reach

abbrev pub shop_keys : KeyFunctions
shop_keys = record {
  key_of = λ object. ok "default/shop";
  deletion_key_of = λ object. ok "default/shop";
  split_key = λ k. ok ("default", "shop");
}
