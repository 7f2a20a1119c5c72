-- ===== src/Containers/ServiceAccount.antt =====
-- pkg/containers/terraformServiceaccount.go
use alustan.Base.{
  String, [], Result, ok, err, is_already_exists, is_not_found, ◌<>◌, StringMap, if◌then◌else◌,
}
use alustan.Cluster.{
  Cluster, ServiceAccount, M, Request, call, pure, raise, try, ◌>>=◌, ◌>>◌, create_namespace,
  get_service_account, create_service_account, create_cluster_role, create_cluster_role_binding,
}

-- `if err != nil && !apierrors.IsAlreadyExists(err) { return "", err }`
abbrev tolerate_existing : Result (Unit {0}) → M (Unit {0})
tolerate_existing (ok _) = pure tt
tolerate_existing (err e) = if is_already_exists e then pure tt else raise e

-- The annotations of the account "terraform-sa". A client answers a missing account with an error
-- and an empty object, whose annotations are nil.
abbrev annotations_of : Result ServiceAccount → M (StringMap String)
annotations_of (ok account) = pure account.annotations
annotations_of (err e) = if is_not_found e then pure [] else raise e

module _ (c : Cluster) where
  abbrev ensure : Request → M (Unit {0})
  ensure request = do r ← try (call c.ack request); tolerate_existing r

  -- `CreateOrUpdateServiceAccountAndRoles`
  unfoldable pub create_service_account_and_roles : String → String → M String
  create_service_account_and_roles name namespace = do
    let identifier = "terraform-" <> name
    let role = "terraform-role-" <> name
    ensure (create_namespace namespace)
    r ← try (call c.service_account (get_service_account "alustan" "terraform-sa"))
    annotations ← annotations_of r
    ensure (
        create_service_account namespace
          (record { name = identifier; namespace = namespace; annotations = annotations }))
    ensure (create_cluster_role (record { name = role }))
    ensure (
        create_cluster_role_binding (record {
          name = role <> "-binding";
          subject_name = identifier;
          subject_namespace = namespace;
          role = role;
        }))
    pure identifier
