-- ===== src/Tests/Fixtures.antt =====
-- The clusters, resources and surroundings of the tests.
use alustan.Base.{
  conflict, not_found, ℕ, String, true, false, List, [], ◌∷◌, none, some, Result, ok, err, Error,
}
use alustan.Value.{Fields, text, end}
use alustan.Cluster.{
  ArgoCluster, Cluster, Pod, PodPhase, succeeded, running, Application, ServiceAccount,
}
use alustan.Types.{Terraform, App, ObjectMeta, terraform_status, app_status}
use alustan.Kube.Retry.{Converter}
use alustan.Terraform.Execute.{Services}
use alustan.Controller.Infra.{Setup}
use alustan.Controller.Application.{Surroundings}
use alustan.Controller.Worker.{Cache, unstructured}
use alustan.Service.ApplicationSet.{Rendering}
use alustan.Service.Dependencies.{tick}
pub use alustan.Tests.Libraries.{
  one_run, one_poll, first_field, three_versions, plain_json, plain_decoding, plain_tags,
  with_finalizers,
}

abbrev pub account : ServiceAccount
account = record { name = "account"; namespace = "default"; annotations = [] }

abbrev pub pod_in : PodPhase → Pod
pod_in phase = record {
  name = "shop-deploy-docker-run-pod";
  labels = [];
  finalizers = [];
  spec = record {
    service_account_name = "account";
    image = "i";
    env = [];
    image_pull_secret = "s";
  };
  phase = phase;
}

abbrev pub healthy_app : Application
healthy_app = record {
  name = "db";
  namespace = "argocd";
  creation_timestamp = 1;
  health = "Healthy";
  sync = "Synced";
  conditions = [];
}

abbrev pub absent : {A : Type 0} → Result A
absent = err (record { reason = not_found; message = "not found" })

-- Every write succeeds or none does; pods are in the given phase, and objects have the finalizers.
abbrev pub cluster_with : Result (Unit {0}) → PodPhase → List String → List Fields → Cluster
cluster_with ack phase finalizers objects = record {
  ack = λ h q. ack;
  object = λ h q. ok (with_finalizers finalizers);
  objects = λ h q. ok objects;
  names = λ h q. ok [];
  hosts = λ h q. ok [];
  service_account = λ h q. ok account;
  pod = λ h q. ok (pod_in phase);
  logs = λ h q. ok "";
  secret = λ h q. absent;
  secrets = λ h q. ok [];
  config_map = λ h q. absent;
  deployment = λ h q. absent;
  clusters = λ h q. ok [];
  application = λ h q. ok healthy_app;
  applications = λ h q. ok [];
  response = λ h q. ok (record { status_code = 200; status = "200 OK"; body = "" });
  texts = λ h q. ok [];
  flag = λ h q. ok false;
}

abbrev pub calm : Cluster
calm = cluster_with (ok tt) succeeded [] []

-- A server that answers every write with a conflict.
abbrev pub conflict_error : Error
conflict_error = record { reason = conflict; message = "the object has been modified" }

abbrev pub contended : Cluster
contended = cluster_with (err conflict_error) succeeded [] []

-- A server whose pods never end.
abbrev pub endless : Cluster
endless = cluster_with (ok tt) running ("terraform.finalizer.alustan.io" ∷ []) []

abbrev pub shop_metadata : ObjectMeta
shop_metadata = record {
  name = "shop";
  namespace = "default";
  generation = 2;
  deletion_timestamp = none;
}

abbrev pub shop : Terraform
shop = record {
  metadata = shop_metadata;
  spec = record {
    environment = "dev";
    variables = none;
    scripts = record { deploy = "deploy -a"; destroy = "destroy" };
    post_deploy = record { script = "post"; args = ("region", "REGION") ∷ [] };
    container_registry = record { provider = "ghcr"; image_name = "shop"; semantic_version = "~1" };
  };
  status = terraform_status "" "";
}

abbrev pub web : App
web = record {
  metadata = shop_metadata;
  spec = record {
    environment = "dev";
    preview_environment = record {
      enabled = false;
      git_owner = "";
      git_repo = "";
      interval_seconds = 0;
    };
    source = record {
      repo_url = "";
      path = "";
      release_name = "";
      target_revision = "";
      values = [];
    };
    container_registry = record { provider = "ghcr"; image_name = "web"; semantic_version = "~1" };
    dependencies = some ((("name", "db") ∷ []) ∷ []);
  };
  status = app_status "" "";
}

abbrev pub one_key : Cache
one_key = record {
  split_key = λ k. ok ("default", "shop");
  get = λ namespace name. ok (unstructured end);
}

abbrev pub always : {A : Type 0} → A → Converter A
always a = record { from_unstructured = λ o. ok a; to_unstructured = λ r. ok end }

abbrev pub services_on : Cluster → Services
services_on c = record {
  cluster = c;
  retry = one_run;
  backoff = one_poll;
  objects = first_field;
  json = plain_json;
  has_cluster_client = true;
}

abbrev pub setup_on : Cluster → Setup ℕ
setup_on c = record {
  services = services_on c;
  semver = three_versions;
  decoding = plain_decoding;
  tag_decoding = plain_tags;
  getenv = λ name. "";
  fuel = 3;
}

abbrev pub plain_rendering : Rendering
plain_rendering = record {
  replace_placeholder = λ annotations s. ok s;
  unmarshal = λ s. ok (text s);
  yaml = λ values. ok "";
}

abbrev pub surroundings_on : Cluster → Surroundings ℕ
surroundings_on c = record {
  environment = record {
    cluster = c;
    retry = one_run;
    objects = first_field;
    rendering = plain_rendering;
    get_name = λ o. "other";
    base64 = λ s. ok s;
    marshal = λ v. ok "{}";
    getenv = λ name. "";
  };
  semver = three_versions;
  decoding = plain_decoding;
  tag_decoding = plain_tags;
  signals = tick ∷ [];
}

-- Argo CD with a control cluster, and with all its components ready.
abbrev pub control_cluster : ArgoCluster
control_cluster = record {
  name = "control";
  server = "https://kubernetes.default.svc";
  labels = ("environment", "control") ∷ [];
}

abbrev pub managed : Cluster
managed = record calm {
  clusters = λ h q. ok (control_cluster ∷ []);
  deployment = λ h q. ok (record { ready_replicas = 1; replicas = 1 });
}
