-- ===== src/Tests/Install.antt =====
-- Examples for the installation of Argo CD.
use alustan.Base.{
  String, ok, false, true, ◌==◌, if◌then◌else◌, [], ◌∷◌, refl, ◌≡◌, ◌≤◌, ◌+◌, ◌⊎◌, List,
}
use alustan.Value.{end}
use alustan.Cluster.{◌>>=◌, pure, list_repo_creds, create_repo_creds}
use alustan.Util.{contains_string}
use alustan.Install.Helm.{HelmTools, operate_once, install_if_needed}
use alustan.Install.Helm.Laws.{helm_operations, backoff-operate_once, install_if_needed-bounded}
use alustan.Install.SshKey.{SshTools, store_ssh_key_from_env}
use alustan.Install.SshKey.Laws.{store_ssh_key_from_env-ok}
use alustan.Tests.Fixtures.{calm, one_poll}

abbrev plain_helm : HelmTools
plain_helm = record {
  init = ok tt;
  chart_repository = ok tt;
  config_exists = false;
  default_values = ok end;
  unmarshal = λ s. ok end;
  coalesce_tables = λ provided defaults. provided;
}

-- The release has a history: it is upgraded once.
install_if_needed_test : helm_operations (install_if_needed calm plain_helm one_poll "" []).1 ≡ 1
unfolding install_if_needed
install_if_needed_test = refl

install_if_needed-bounded_example :
    helm_operations (install_if_needed calm plain_helm one_poll "" []).1 ≤ helm_operations [] + 1
install_if_needed-bounded_example = install_if_needed-bounded calm plain_helm one_poll "" []

backoff-operate_once_example :
    one_poll.exponential_backoff (operate_once calm end) []
    ≡ (operate_once calm end >>= λ _. pure tt) []
backoff-operate_once_example = backoff-operate_once calm one_poll end []

abbrev plain_ssh : SshTools
plain_ssh = record {
  trim_space = λ s. s;
  parse_private_key = λ key. ok tt;
  repo_creds_client = ok tt;
}

abbrev ssh_env : String → String
ssh_env name = if name == "GIT_SSH_SECRET" then "key" else "git@github.com:org"

store_ssh_key_from_env-ok_example :
    let h' = (store_ssh_key_from_env plain_ssh calm ssh_env []).1 in
    ("git@github.com:org" == "" ≡ false)
    × (plain_ssh.parse_private_key "key" ≡ ok tt)
    × ((urls : List String) × (calm.texts [] list_repo_creds ≡ ok urls)
        × (((contains_string urls "git@github.com:org" ≡ true) × (h' ≡ list_repo_creds ∷ []))
            ⊎ ((contains_string urls "git@github.com:org" ≡ false)
                × (h' ≡ create_repo_creds "git@github.com:org" "key" ∷ list_repo_creds ∷ [])
                × (calm.ack (list_repo_creds ∷ []) (create_repo_creds "git@github.com:org" "key")
                    ≡ ok tt))))
unfolding store_ssh_key_from_env
store_ssh_key_from_env-ok_example = store_ssh_key_from_env-ok plain_ssh calm ssh_env [] refl refl
