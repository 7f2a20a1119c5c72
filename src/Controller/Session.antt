-- ===== src/Controller/Session.antt =====
-- The Argo CD session of a controller: `GetAuthToken`, `scheduleTokenRefresh`, `CreateArgoCDClient`,
-- `refreshClients` and the start of leading. A client is known by the token that it was made with.
-- `tokenLock` is held over `GetAuthToken` and over each round of `scheduleTokenRefresh`, so these run
-- one after the other. The `refreshClients` of the start of leading comes without the lock; it is
-- taken as one step with the `GetAuthToken` before it.
pub mod Steps
pub mod Laws
pub mod Clients
use alustan.Base.{
  ℕ, suc, String, Bool, Option, none, some, Result, ok, err, Error, errorf, wrapf, ◌+◌, ◌==◌,
  if◌then◌else◌,
}
use alustan.Cluster.{
  Cluster, Kind, apps, terraforms, M, call, pure, raise, lift, try, wrap, ◌>>=◌, ◌>>◌,
  create_argo_client, create_cluster_client, create_application_set_client,
  create_application_client,
}
use alustan.Terraform.PostDeploy.{Json}
use alustan.ArgoLogin.{admin_password, generate_auth_token}

-- `token`, the clients of the controller, and how many goroutines run `scheduleTokenRefresh`. The
-- application controller has two API clients, which it stores together.
pub record Session : Type 0 where
  pub token : String
  pub argo_client : Option String
  pub api_clients : Option String
  pub refreshers : ℕ

abbrev pub new_session : Session
new_session = record { token = ""; argo_client = none; api_clients = none; refreshers = 0 }

module _ (c : Cluster) where
  -- `CreateArgoCDClient`
  unfoldable pub create_argo_cd_client : String → M (Unit {0})
  create_argo_cd_client auth_token =
      wrap (errorf "failed to create Argo CD client: ") (call c.ack (create_argo_client auth_token))

  -- The API clients of the controller of this resource.
  unfoldable pub create_api_clients : Kind → String → M (Unit {0})
  create_api_clients terraforms new_token =
      wrap (errorf "failed to create ArgoCD cluster client: ")
        (call c.ack (create_cluster_client new_token))
  create_api_clients apps new_token = do
    wrap (errorf "failed to create ApplicationSet client: ")
        (call c.ack (create_application_set_client new_token))
    wrap (errorf "failed to create Application client: ")
        (call c.ack (create_application_client new_token))

  abbrev pub store_api_clients : Session → String → Result (Unit {0}) → M (Session × Option Error)
  store_api_clients s new_token (err e) = pure (s, some e)
  store_api_clients s new_token (ok _) = pure (record s { api_clients = some new_token }, none)

  abbrev pub store_argo_client :
      Kind → Session → String → Result (Unit {0}) → M (Session × Option Error)
  store_argo_client kind s new_token (err e) =
      pure (s, some (errorf "failed to create Argo CD client: " e))
  store_argo_client kind s new_token (ok _) = do
    r ← try (create_api_clients kind new_token)
    store_api_clients (record s { argo_client = some new_token }) new_token r

  -- `refreshClients`: the session that it leaves, and its error.
  unfoldable pub refresh_clients : Kind → Session → String → M (Session × Option Error)
  unfolding create_argo_cd_client create_api_clients
  refresh_clients kind s new_token = do
    r ← try (create_argo_cd_client new_token)
    store_argo_client kind s new_token r

module _ (c : Cluster) (J : Json) where
  abbrev pub store_token : Session → Result String → M (Session × Result String)
  store_token s (err e) =
      pure (record s { token = "" }, err (errorf "failed to generate auth token: " e))
  store_token s (ok token) =
      pure (record s { token = token; refreshers = s.refreshers + 1 }, ok token)

  -- `GetAuthToken`
  unfoldable pub get_auth_token : Session → String → M (Session × Result String)
  unfolding generate_auth_token
  get_auth_token s password =
      if s.token == ""
      then (do r ← try (generate_auth_token c J "admin" password); store_token s r)
      else pure (s, ok s.token)

  abbrev pub without_error : Session × Option Error → M Session
  without_error (s, _) = pure s

  abbrev pub after_login : Kind → Session → Result String → M Session
  after_login kind s (err _) = pure s
  after_login kind s (ok new_token) =
      refresh_clients c kind (record s { token = new_token }) new_token >>= without_error

  -- One round of `scheduleTokenRefresh`; its errors are printed.
  unfoldable pub refresh_token : Kind → Session → String → M Session
  unfolding generate_auth_token refresh_clients
  refresh_token kind s password = do
    r ← try (generate_auth_token c J "admin" password)
    after_login kind s r

  abbrev pub fatal_refresh : Session × Option Error → M Session
  fatal_refresh (s, some e) = raise (errorf "Failed to refresh clients: " e)
  fatal_refresh (s, none) = pure s

  abbrev pub fatal_token : Kind → Session × Result String → M Session
  fatal_token kind (s, err e) = raise (errorf "Failed to get auth token: " e)
  fatal_token kind (s, ok token) = refresh_clients c kind s token >>= fatal_refresh

  -- `OnStartedLeading`, up to the start of the workers; an error ends the process.
  unfoldable pub start_leading : Kind → Session → M Session
  unfolding admin_password get_auth_token refresh_clients
  start_leading kind s = do
    password ← wrap (errorf "Failed to get admin password: ") (admin_password c)
    r ← get_auth_token s password
    fatal_token kind r
