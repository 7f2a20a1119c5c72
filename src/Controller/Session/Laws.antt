-- ===== src/Controller/Session/Laws.antt =====
-- About the tokens of a session.
use alustan.Base.{
  subst, errorf, String, Option, none, some, Result, ok, err, Error, refl, ◌<◌, inl, inr,
  Bool-cases, arith, eq_iff, ◌==◌,
}
use alustan.Cluster.{
  Yields-any, Holds, wrap, Yields-bind, Yields-catch, Returned, Yields, Cluster, Kind, History,
  Outcome,
}
use alustan.Terraform.PostDeploy.{Json}
use alustan.ArgoLogin.{generate_auth_token, admin_password}
use alustan.Controller.Session.{
  without_error, fatal_token, store_token, after_login, fatal_refresh, store_argo_client,
  store_api_clients, Session, refresh_clients, get_auth_token, refresh_token, start_leading,
  create_argo_cd_client, create_api_clients,
}
use alustan.Controller.Session.Steps.{
  IsIssued, IsValid, Step, leads, refreshes, elsewhere, Reach, starts, steps,
}

module _ (c : Cluster) (J : Json) where
  api_clients-IsValid :
      (s : Session) (token : String) (r : Result (Unit {0}))
      → IsIssued c J token
      → IsValid c J s
      → Yields
          (λ (r : Session × Option Error). IsValid c J r.0)
          (store_api_clients c (record s { argo_client = some token }) token r)
  api_clients-IsValid s token (err e) issued v h = record {
    token_issued = v.token_issued;
    argo_issued = issued;
    api_issued = v.api_issued;
    argo_first = λ e. cc e;
    refreshed = v.refreshed;
  }
  api_clients-IsValid s token (ok _) issued v h = record {
    token_issued = v.token_issued;
    argo_issued = issued;
    api_issued = issued;
    argo_first = λ e. cc e;
    refreshed = v.refreshed;
  }

  refresh_clients-IsValid :
      (kind : Kind) (s : Session) (token : String)
      → IsIssued c J token
      → IsValid c J s
      → Yields (λ (r : Session × Option Error). IsValid c J r.0) (refresh_clients c kind s token)
  unfolding refresh_clients
  refresh_clients-IsValid kind s token issued v =
      Yields-catch (λ (r : Session × Option Error). IsValid c J r.0) (create_argo_cd_client c token)
        (store_argo_client c kind s token) stored
    where
      stored :
          (r : Result (Unit {0}))
          → Returned (create_argo_cd_client c token) r
          → Yields
              (λ (r : Session × Option Error). IsValid c J r.0)
              (store_argo_client c kind s token r)
      stored (err e) _ = λ h. v
      stored (ok _) _ =
          Yields-catch (λ (r : Session × Option Error). IsValid c J r.0)
            (create_api_clients c kind token)
            (store_api_clients c (record s { argo_client = some token }) token)
            (λ r _. api_clients-IsValid s token r issued v)

  -- The session is valid, and a token that goes with it was issued.
  abbrev GoesWith : Session × Result String → Type 0
  GoesWith (s, ok token) = IsValid c J s × IsIssued c J token
  GoesWith (s, err _) = IsValid c J s

  store_token-GoesWith :
      (s : Session) (password : String) (r : Result String)
      → Returned (generate_auth_token c J "admin" password) r
      → IsValid c J s
      → Yields GoesWith (store_token c J s r)
  store_token-GoesWith s password (err e) got v h = record {
    token_issued = inl refl;
    argo_issued = v.argo_issued;
    api_issued = v.api_issued;
    argo_first = v.argo_first;
    refreshed = λ p. absurd (p refl);
  }
  store_token-GoesWith s password (ok token) got v h = (
    record {
      token_issued = inr (password, got.0, got.1);
      argo_issued = v.argo_issued;
      api_issued = v.api_issued;
      argo_first = v.argo_first;
      refreshed = λ _. omega arith;
    },
    (password, got.0, got.1),
  )

  get_auth_token-GoesWith :
      (s : Session) (password : String)
      → IsValid c J s
      → Yields GoesWith (get_auth_token c J s password)
  unfolding get_auth_token
  get_auth_token-GoesWith s password v = elim (Bool-cases (s.token == "")) [
    | inl unset ↦ rw unset (
        Yields-catch GoesWith (generate_auth_token c J "admin" password) (store_token c J s)
          (λ r got. store_token-GoesWith s password r got v))
    | inr kept ↦ rw kept (λ h. (v, ground (arith, eq_iff s.token "", v.token_issued)))
  ]

  fatal_refresh-IsValid :
      (r : Session × Option Error) → IsValid c J r.0 → Yields (IsValid c J) (fatal_refresh c J r)
  fatal_refresh-IsValid (s, some e) v h = tt
  fatal_refresh-IsValid (s, none) v h = v

  fatal_token-IsValid :
      (kind : Kind) (r : Session × Result String)
      → GoesWith r
      → Yields (IsValid c J) (fatal_token c J kind r)
  fatal_token-IsValid kind (s, err e) v = λ h. tt
  fatal_token-IsValid kind (s, ok token) (v, issued) =
      Yields-bind (λ (r : Session × Option Error). IsValid c J r.0) (IsValid c J)
        (refresh_clients c kind s token) (fatal_refresh c J)
        (refresh_clients-IsValid kind s token issued v) fatal_refresh-IsValid

  start_leading-IsValid :
      (kind : Kind) (s : Session) → IsValid c J s → Yields (IsValid c J) (start_leading c J kind s)
  unfolding start_leading
  start_leading-IsValid kind s v =
      Yields-bind (λ (_ : String). Unit {0}) (IsValid c J)
        (wrap (errorf "Failed to get admin password: ") (admin_password c)) _
        (Yields-any (wrap (errorf "Failed to get admin password: ") (admin_password c)))
        (λ password _.
          Yields-bind GoesWith (IsValid c J) (get_auth_token c J s password) (fatal_token c J kind)
            (get_auth_token-GoesWith s password v) (fatal_token-IsValid kind))

  after_login-IsValid :
      (kind : Kind) (s : Session) (password : String) (r : Result String)
      → Returned (generate_auth_token c J "admin" password) r
      → 0 < s.refreshers
      → IsValid c J s
      → Yields (IsValid c J) (after_login c J kind s r)
  after_login-IsValid kind s password (err e) got some_run v = λ h. v
  after_login-IsValid kind s password (ok token) got some_run v =
      Yields-bind (λ (r : Session × Option Error). IsValid c J r.0) (IsValid c J)
        (refresh_clients c kind (record s { token = token }) token) (without_error c J)
        (refresh_clients-IsValid kind (record s { token = token }) token (password, got.0, got.1)
          (record {
            token_issued = inr (password, got.0, got.1);
            argo_issued = v.argo_issued;
            api_issued = v.api_issued;
            argo_first = v.argo_first;
            refreshed = λ _. some_run;
          }))
        (λ r w h. w)

  refresh_token-IsValid :
      (kind : Kind) (s : Session) (password : String)
      → 0 < s.refreshers
      → IsValid c J s
      → Yields (IsValid c J) (refresh_token c J kind s password)
  unfolding refresh_token
  refresh_token-IsValid kind s password some_run v =
      Yields-catch (IsValid c J) (generate_auth_token c J "admin" password) (after_login c J kind s)
        (λ r got. after_login-IsValid kind s password r got some_run v)

  Step-IsValid :
      {kind : Kind} {s s' : Session} {h h' : History}
      → Step c J kind s h s' h'
      → IsValid c J s
      → IsValid c J s'
  Step-IsValid {kind} {s} {s'} {h} (leads p) v =
      subst (λ (r : Outcome Session × History). Holds (IsValid c J) r.0) p
        (start_leading-IsValid kind s v h)
  Step-IsValid {kind} {s} {s'} {h} (refreshes password some_run p) v =
      subst (λ (r : Outcome Session × History). Holds (IsValid c J) r.0) p
        (refresh_token-IsValid kind s password some_run v h)
  Step-IsValid elsewhere v = v

  -- In every session that a controller can reach, over any answers of the servers: the token is
  -- unset, or some login returned it and a goroutine refreshes it; each client was made with a token
  -- that some login returned; and there are API clients only beside an Argo CD client.
  pub Reach-IsValid : {kind : Kind} {s : Session} {h : History} → Reach c J kind s h → IsValid c J s
  Reach-IsValid (starts h) = record {
    token_issued = inl refl;
    argo_issued = tt;
    api_issued = tt;
    argo_first = λ _. refl;
    refreshed = λ p. absurd (p refl);
  }
  Reach-IsValid (steps r st) = Step-IsValid st (Reach-IsValid r)
