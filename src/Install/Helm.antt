-- ===== src/Install/Helm.antt =====
-- `InstallArgoCD`, `installArgoCDWithHelm`, `upgradeArgoCD`, `installArgoCD` and `namespaceExists`.
-- `isArgoCDInstalledAndReady` is the code of pkg/checkargo. `installLock` is held by one goroutine
-- only, so that it never waits.
pub mod Laws
use alustan.Base.{
  String, Bool, true, false, not, List, [], ◌∷◌, Result, ok, err, Error, errorf, wrapf, new_error,
  is_not_found, map_error, bind_result, ◌&&◌, ◌==◌, if◌then◌else◌,
}
use alustan.Value.{Fields}
use alustan.Cluster.{
  Cluster, M, call, lift, pure, raise, try, wrap, ◌>>=◌, ◌>>◌, get_namespace, helm_index,
  helm_repositories, helm_write_repositories, helm_locate, helm_load, helm_status, helm_history,
  helm_upgrade, helm_install,
}
use alustan.Util.{contains_string}
use alustan.Kube.ArgoCluster.{Backoff}
use alustan.ArgoReady.{is_argo_installed_and_ready}

-- Helm's library and YAML: what does not ask a server. `config_exists` is the answer of `os.Stat` at
-- the repository file.
pub record HelmTools : Type 0 where
  pub init : Result (Unit {0})
  pub chart_repository : Result (Unit {0})
  pub config_exists : Bool
  pub default_values : Result Fields
  pub unmarshal : String → Result Fields
  pub coalesce_tables : Fields → Fields → Fields

abbrev pub release : String
release = "argo-cd"

module _ (c : Cluster) where
  abbrev exists_or_error : Result (Unit {0}) → M Bool
  exists_or_error (ok _) = pure true
  exists_or_error (err e) = if is_not_found e then pure false else raise e

  -- `namespaceExists`
  unfoldable pub namespace_exists : String → M Bool
  namespace_exists namespace = do r ← try (call c.ack (get_namespace namespace)); exists_or_error r

  -- `upgradeArgoCD`
  unfoldable pub upgrade_argo_cd : Fields → M (Unit {0})
  upgrade_argo_cd vals =
      wrap (wrapf "failed to upgrade ArgoCD with Helm: ") (call c.ack (helm_upgrade release vals))

  -- `installArgoCD`
  unfoldable pub install_argo_cd : Fields → M (Unit {0})
  unfolding namespace_exists
  install_argo_cd vals = do
    exists ← wrap (wrapf "failed to check if namespace argocd exists: ") (namespace_exists "argocd")
    wrap (wrapf "failed to install ArgoCD with Helm: ")
        (call c.ack (helm_install release (not exists) vals))

  abbrev upgrade_or_install : Fields → Result (Unit {0}) → M (Unit {0})
  upgrade_or_install vals (ok _) = upgrade_argo_cd vals
  upgrade_or_install vals (err _) = install_argo_cd vals

  -- The condition that `wait.ExponentialBackoff` polls: an error ends the poll.
  unfoldable pub operate_once : Fields → M Bool
  unfolding upgrade_argo_cd install_argo_cd
  operate_once vals = do
    r ← try (call c.ack (helm_history release))
    upgrade_or_install vals r
    pure true

  -- The values of the release.
  unfoldable pub merged_values : HelmTools → String → Result Fields
  merged_values E argocd_config =
      bind_result (map_error (wrapf "failed to get default values: ") E.default_values)
        λ default_vals.
          if argocd_config == ""
          then ok default_vals
          else bind_result
              (map_error (wrapf "failed to parse ArgoCD configuration: ")
                (E.unmarshal argocd_config))
              λ provided_vals. ok (E.coalesce_tables provided_vals default_vals)

  -- The repository file, with the repository added if it is missing.
  unfoldable pub add_repository : HelmTools → M (Unit {0})
  unfolding contains_string
  add_repository E = do
    names ←
        (if E.config_exists
          then wrap (wrapf "failed to load repository config: ") (call c.texts helm_repositories)
          else pure [])
    (if contains_string names release
        then pure tt
        else wrap (wrapf "failed to write repository config: ")
            (call c.ack helm_write_repositories))

  abbrev pub operate_unless_pending : Backoff → Fields → Result Bool → M (Unit {0})
  operate_unless_pending B vals (ok true) = pure tt
  operate_unless_pending B vals _ =
      wrap (wrapf "failed to install/upgrade ArgoCD with Helm: ")
        (B.exponential_backoff (operate_once vals))

  -- The steps of `installArgoCDWithHelm` before the release is looked at: the values.
  unfoldable pub prepare : HelmTools → String → M Fields
  unfolding add_repository merged_values
  prepare E argocd_config = do
    wrap (wrapf "failed to initialize Helm action configuration: ") (lift E.init)
    wrap (wrapf "failed to create chart repository: ") (lift E.chart_repository)
    wrap (wrapf "failed to download index file: ") (call c.ack helm_index)
    add_repository E
    wrap (wrapf "failed to locate chart: ") (call c.ack helm_locate)
    wrap (wrapf "failed to load chart: ") (call c.ack helm_load)
    lift (merged_values E argocd_config)

  -- `installArgoCDWithHelm`; the flag is whether the release is pending.
  unfoldable pub install_with_helm : HelmTools → Backoff → String → M (Unit {0})
  unfolding prepare operate_once
  install_with_helm E B argocd_config = do
    vals ← prepare E argocd_config
    pending ← try (call c.flag (helm_status release))
    operate_unless_pending B vals pending

  -- `InstallArgoCD`
  unfoldable pub install_if_needed : HelmTools → Backoff → String → M (Unit {0})
  unfolding is_argo_installed_and_ready install_with_helm
  install_if_needed E B argocd_config = do
    (installed, ready) ←
        wrap (wrapf "failed to check if ArgoCD is installed and ready: ")
          (is_argo_installed_and_ready c)
    (if installed && ready then pure tt else (do
      (still_installed, still_ready) ←
          wrap (wrapf "failed to check if ArgoCD is installed and ready after acquiring lock: ")
            (is_argo_installed_and_ready c)
      (if still_installed && still_ready
          then pure tt
          else wrap (wrapf "failed to install ArgoCD with Helm: ")
              (install_with_helm E B argocd_config))))
