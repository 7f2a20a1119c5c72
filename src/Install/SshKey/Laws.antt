-- ===== src/Install/SshKey/Laws.antt =====
-- About the storing of the SSH key.
use alustan.Base.{
  ◌≡◌, ◌⊎◌, inl, inr, String, true, false, List, ◌∷◌, ok, ◌==◌, Result-cases, Bool-cases, arith,
}
use alustan.Cluster.{Cluster, History, returns, list_repo_creds, create_repo_creds}
use alustan.Util.{contains_string}
use alustan.Install.SshKey.{
  SshTools, store_key, store_unless_listed, store_ssh_key_from_env, check_private_key,
}

module _ (E : SshTools) (c : Cluster) (getenv : String → String) where
  -- When a key in the environment was stored without an error, the organization's URL is set, the
  -- trimmed key was parsed, and the credentials were either listed for this URL before or are
  -- created now, with the trimmed key; nothing else is sent.
  pub store_ssh_key_from_env-ok :
      (h : History)
      → (getenv "GIT_SSH_SECRET" == "") ≡ false
      → (store_ssh_key_from_env E c getenv h).0 ≡ returns (ok tt)
      → let h' = (store_ssh_key_from_env E c getenv h).1 in
        let url = getenv "GIT_ORG_URL" in
        let key = E.trim_space (getenv "GIT_SSH_SECRET") in
        (url == "" ≡ false)
        × (E.parse_private_key key ≡ ok tt)
        × ((urls : List String) × (c.texts h list_repo_creds ≡ ok urls)
            × (((contains_string urls url ≡ true) × (h' ≡ list_repo_creds ∷ h))
                ⊎ ((contains_string urls url ≡ false)
                    × (h' ≡ create_repo_creds url key ∷ list_repo_creds ∷ h)
                    × (c.ack (list_repo_creds ∷ h) (create_repo_creds url key) ≡ ok tt))))
  unfolding store_ssh_key_from_env store_key store_unless_listed check_private_key
  store_ssh_key_from_env-ok h set p =
      let url = getenv "GIT_ORG_URL" in
      let key = E.trim_space (getenv "GIT_SSH_SECRET") in
      elim (Bool-cases (getenv "GIT_ORG_URL" == "")) [
        | inl unset ↦ absurd (ground arith)
        | inr url_set ↦ elim (Result-cases (E.parse_private_key key)) [
          | inr (_, r) ↦ absurd (ground arith)
          | inl (_, parsed) ↦ elim (Result-cases (c.texts h list_repo_creds)) [
            | inr (_, r) ↦ absurd (ground arith)
            | inl (urls, listed) ↦ (
              url_set,
              parsed,
              (
                urls,
                listed,
                elim (Bool-cases (contains_string urls url)) [
                  | inl there ↦ inl (there, ground arith)
                  | inr missing ↦ inr (missing, ground arith, ground arith)
                ],
              ),
            )
          ]
        ]
      ]
