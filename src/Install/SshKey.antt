-- ===== src/Install/SshKey.antt =====
-- `storeSSHKeyFromEnv` and `isValidSSHPrivateKey`. The context's time limit is not modelled.
pub mod Laws
use alustan.Base.{String, Bool, List, Result, ok, err, errorf, new_error, ◌==◌, if◌then◌else◌}
use alustan.Cluster.{
  Cluster, M, call, lift, pure, raise, wrap, ◌>>=◌, ◌>>◌, list_repo_creds, create_repo_creds,
}
use alustan.Util.{contains_string}

-- `strings.TrimSpace`, `ssh.ParsePrivateKey`, and the connection of the client.
pub record SshTools : Type 0 where
  pub trim_space : String → String
  pub parse_private_key : String → Result (Unit {0})
  pub repo_creds_client : Result (Unit {0})

module _ (E : SshTools) (c : Cluster) (getenv : String → String) where
  -- `isValidSSHPrivateKey`
  unfoldable pub check_private_key : String → M (Unit {0})
  check_private_key key =
      wrap (errorf "failed to parse private key: ") (lift (E.parse_private_key key))

  -- The credentials are stored unless some have the URL already.
  unfoldable pub store_unless_listed : String → String → List String → M (Unit {0})
  unfolding contains_string
  store_unless_listed org_url key urls =
      if contains_string urls org_url
      then pure tt
      else wrap (errorf "failed to store SSH repo secret: ")
          (call c.ack (create_repo_creds org_url key))

  unfoldable pub store_key : String → String → M (Unit {0})
  unfolding check_private_key store_unless_listed
  store_key org_url key = do
    wrap (errorf "invalid SSH private key: ") (check_private_key key)
    wrap (errorf "failed to create repo creds client: ") (lift E.repo_creds_client)
    urls ← wrap (errorf "failed to list repository credentials: ") (call c.texts list_repo_creds)
    store_unless_listed org_url key urls

  -- `storeSSHKeyFromEnv`
  unfoldable pub store_ssh_key_from_env : M (Unit {0})
  unfolding store_key
  store_ssh_key_from_env =
      let secret_value = getenv "GIT_SSH_SECRET" in
      let org_url = getenv "GIT_ORG_URL" in
      if secret_value == ""
      then pure tt
      else if org_url == ""
      then raise
          (new_error "organization URL (GIT_ORG_URL) must be provided when SSH secret is set")
      else store_key org_url (E.trim_space secret_value)
