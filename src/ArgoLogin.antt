-- ===== src/ArgoLogin.antt =====
-- The login to Argo CD that both controllers and the installer have a copy of: `getAdminPassword`,
-- `getArgoCDAdminPassword`, `GenerateAuthToken` and `getArgoCDToken`. The request cannot fail to be
-- built, since its URL is a constant.
pub mod Laws
use alustan.Base.{
  String, Bool, Option, none, some, Result, ok, err, errorf, new_error, lookup, ◌<>◌, if◌then◌else◌,
}
use alustan.Value.{get, as_text}
use alustan.Cluster.{
  entries_of, Cluster, Response, M, call, lift, raise, wrap, ◌>>=◌, get_secret, post_session,
}
use alustan.Registry.Clients.{is_status_ok}
use alustan.Terraform.PostDeploy.{Json}

abbrev found_or_error : String → Option String → Result String
found_or_error text none = err (new_error text)
found_or_error text (some found) = ok found

module _ (c : Cluster) where
  -- `getAdminPassword`
  unfoldable pub admin_password : M String
  unfolding lookup
  admin_password = do
    secret ←
        wrap (errorf "failed to get secret: ")
          (call c.secret (get_secret "argocd" "argocd-initial-admin-secret"))
    lift (
        found_or_error "password not found in secret"
          (lookup "password" (entries_of secret.content)))

module _ (c : Cluster) (J : Json) where
  -- What the answer to the login holds.
  unfoldable pub token_of_response : Response → M String
  unfolding get
  token_of_response r =
      if is_status_ok r
      then (do
        fields ← wrap (errorf "failed to decode response: ") (lift (J.unmarshal_map r.body))
        lift (found_or_error "token not found in response" (as_text (get "token" fields))))
      else raise (new_error ("authentication failed: " <> r.status <> ", response: " <> r.body))

  -- `GenerateAuthToken`
  unfoldable pub generate_auth_token : String → String → M String
  unfolding token_of_response
  generate_auth_token username password = do
    r ← wrap (errorf "failed to send request: ") (call c.response (post_session username password))
    token_of_response r
