-- ===== src/Controller/Session/Steps.antt =====
-- The states of a session that a controller can reach, and when one is valid.
use alustan.Base.{String, Option, none, some, ok, ◌≡◌, ◌≢◌, ◌<◌, ◌⊎◌}
use alustan.Cluster.{Cluster, Kind, History, returns}
use alustan.Terraform.PostDeploy.{Json}
use alustan.ArgoLogin.{generate_auth_token}
use alustan.Controller.Session.{Session, new_session, refresh_token, start_leading}

module _ (c : Cluster) (J : Json) where
  -- Some login has returned this token.
  abbrev pub IsIssued : String → Type 0
  IsIssued token =
      (password : String) × (h : History) × ((generate_auth_token c J "admin" password h).0
        ≡ returns (ok token))

  abbrev pub IsIssuedClient : Option String → Type 0
  IsIssuedClient none = Unit {0}
  IsIssuedClient (some token) = IsIssued token

  -- The token is unset or issued, and refreshed by some goroutine; so are those of the clients; and
  -- API clients are there only beside an Argo CD client.
  pub record IsValid (s : Session) : Type 0 where
    pub token_issued : (s.token ≡ "") ⊎ IsIssued s.token
    pub argo_issued : IsIssuedClient s.argo_client
    pub api_issued : IsIssuedClient s.api_clients
    pub argo_first : s.argo_client ≡ none → s.api_clients ≡ none
    pub refreshed : s.token ≢ "" → 0 < s.refreshers

  -- The steps of one controller: it starts to lead, a goroutine refreshes the token, or other code
  -- sends requests in between.
  pub data Step (kind : Kind) (s : Session) (h : History) : Session → History → Type 0 where
    leads :
        {s' : Session} {h' : History}
        → start_leading c J kind s h ≡ (returns (ok s'), h')
        → Step kind s h s' h'
    refreshes :
        {s' : Session} {h' : History} (password : String)
        → 0 < s.refreshers
        → refresh_token c J kind s password h ≡ (returns (ok s'), h')
        → Step kind s h s' h'
    elsewhere : {h' : History} → Step kind s h s h'

  pub data Reach (kind : Kind) : Session → History → Type 0 where
    starts : (h : History) → Reach kind new_session h
    steps :
        {s s' : Session} {h h' : History} → Reach kind s h → Step kind s h s' h' → Reach kind s' h'
