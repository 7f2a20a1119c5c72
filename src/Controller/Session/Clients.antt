-- ===== src/Controller/Session/Clients.antt =====
-- When the clients of a session are there.
use alustan.Base.{String, Option, none, some, Error, errorf, Result, ok, err}
use alustan.Cluster.{Cluster, Kind, Yields, Yields-any, Yields-bind, Yields-catch, wrap}
use alustan.ArgoLogin.{generate_auth_token, admin_password}
use alustan.Terraform.PostDeploy.{Json}
use alustan.Controller.Session.{
  Session, start_leading, refresh_token, get_auth_token, refresh_clients, create_argo_cd_client,
  create_api_clients, store_argo_client, store_api_clients, fatal_token, fatal_refresh, after_login,
  without_error,
}

abbrev pub IsThere : Option String → Type 0
IsThere none = ⊥
IsThere (some _) = Unit {0}

-- Both clients are there.
abbrev pub HasClients : Session → Type 0
HasClients s = IsThere s.argo_client × IsThere s.api_clients

-- The same for a session with the error of what made it, if that had none.
abbrev IfNoError : Session × Option Error → Type 0
IfNoError (s, none) = HasClients s
IfNoError (s, some _) = Unit {0}

-- What is there stays there.
abbrev pub Kept : Session → Session → Type 0
Kept s s' = HasClients s → HasClients s'

module _ (c : Cluster) (J : Json) where
  store_api_clients-IfNoError :
      (s : Session) (token : String) (r : Result (Unit {0}))
      → Yields
          (λ (r : Session × Option Error). IfNoError r × Kept s r.0)
          (store_api_clients c (record s { argo_client = some token }) token r)
  store_api_clients-IfNoError s token (err e) h = (tt, λ v. (tt, v.1))
  store_api_clients-IfNoError s token (ok _) h = ((tt, tt), λ v. (tt, tt))

  refresh_clients-IfNoError :
      (kind : Kind) (s : Session) (token : String)
      → Yields
          (λ (r : Session × Option Error). IfNoError r × Kept s r.0)
          (refresh_clients c kind s token)
  unfolding refresh_clients
  refresh_clients-IfNoError kind s token =
      Yields-catch (λ (r : Session × Option Error). IfNoError r × Kept s r.0)
        (create_argo_cd_client c token) (store_argo_client c kind s token) λ r _. stored r
    where
      stored :
          (r : Result (Unit {0}))
          → Yields
              (λ (r : Session × Option Error). IfNoError r × Kept s r.0)
              (store_argo_client c kind s token r)
      stored (err e) = λ h. (tt, λ v. v)
      stored (ok _) =
          Yields-catch (λ (r : Session × Option Error). IfNoError r × Kept s r.0)
            (create_api_clients c kind token)
            (store_api_clients c (record s { argo_client = some token }) token)
            (λ r _. store_api_clients-IfNoError s token r)

  fatal_refresh-HasClients :
      (r : Session × Option Error) → IfNoError r → Yields HasClients (fatal_refresh c J r)
  fatal_refresh-HasClients (s, some e) v h = tt
  fatal_refresh-HasClients (s, none) v h = v

  fatal_token-HasClients :
      (kind : Kind) (r : Session × Result String) → Yields HasClients (fatal_token c J kind r)
  fatal_token-HasClients kind (s, err e) = λ h. tt
  fatal_token-HasClients kind (s, ok token) =
      Yields-bind (λ (r : Session × Option Error). IfNoError r × Kept s r.0) HasClients
        (refresh_clients c kind s token) (fatal_refresh c J)
        (refresh_clients-IfNoError kind s token) λ r v. fatal_refresh-HasClients r v.0

  pub start_leading-HasClients :
      (kind : Kind) (s : Session) → Yields HasClients (start_leading c J kind s)
  unfolding start_leading
  start_leading-HasClients kind s =
      let login = wrap (errorf "Failed to get admin password: ") (admin_password c) in
      Yields-bind (λ (_ : String). Unit {0}) HasClients login _ (Yields-any login)
        λ password _.
          Yields-bind (λ (_ : Session × Result String). Unit {0}) HasClients
            (get_auth_token c J s password) (fatal_token c J kind)
            (Yields-any (get_auth_token c J s password)) λ r _. fatal_token-HasClients kind r

  after_login-Kept :
      (kind : Kind) (s : Session) (r : Result String) → Yields (Kept s) (after_login c J kind s r)
  after_login-Kept kind s (err e) = λ h v. v
  after_login-Kept kind s (ok token) =
      let renewed = record s { token = token } in
      Yields-bind (λ (r : Session × Option Error). IfNoError r × Kept renewed r.0) (Kept s)
        (refresh_clients c kind renewed token) (without_error c J)
        (refresh_clients-IfNoError kind renewed token) λ r v h. v.1

  pub refresh_token-Kept :
      (kind : Kind) (s : Session) (password : String)
      → Yields (Kept s) (refresh_token c J kind s password)
  unfolding refresh_token
  refresh_token-Kept kind s password =
      Yields-catch (Kept s) (generate_auth_token c J "admin" password) (after_login c J kind s)
        λ r _. after_login-Kept kind s r
