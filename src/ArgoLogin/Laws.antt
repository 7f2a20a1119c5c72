-- ===== src/ArgoLogin/Laws.antt =====
-- About the answer to a login.
use alustan.Base.{String, ok, some, ◌∷◌, ◌≡◌, inl, inr, Result-cases, arith}
use alustan.Value.{Fields, get, as_text}
use alustan.Cluster.{Cluster, History, Response, returns, post_session}
use alustan.Terraform.PostDeploy.{Json}
use alustan.ArgoLogin.{generate_auth_token}

-- A token that a login returns is the text under "token" of an answer with status 200, and the login
-- has sent one request.
pub generate_auth_token-ok :
    (c : Cluster) (J : Json) (username password token : String) (h : History)
    → (generate_auth_token c J username password h).0 ≡ returns (ok token)
    → (r : Response) × (fields : Fields) × (c.response h (post_session username password) ≡ ok r)
      × (r.status_code ≡ 200)
      × (J.unmarshal_map r.body ≡ ok fields)
      × (as_text (get "token" fields) ≡ some token)
      × ((generate_auth_token c J username password h).1 ≡ post_session username password ∷ h)
unfolding generate_auth_token
generate_auth_token-ok c J username password token h p =
    elim (Result-cases (c.response h (post_session username password))) [
      | inr (e, x) ↦ absurd (ground arith)
      | inl (r, x) ↦ elim (Result-cases (J.unmarshal_map r.body)) [
        | inr (e, y) ↦ absurd (ground arith)
        | inl (fields, y) ↦ (r, fields, x, ground arith, y, ground arith, ground arith)
      ]
    ]
