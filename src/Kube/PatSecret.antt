-- ===== src/Kube/PatSecret.antt =====
-- pkg/application/kubernetes/createSecret.go: the GitHub token of the pull-request generators.
use alustan.Base.{
  String, Bool, false, Option, none, some, [], ◌∷◌, Result, ok, err, errorf, lookup, ◌==◌,
  if◌then◌else◌,
}
use alustan.Cluster.{
  entries_of, Cluster, Secret, M, call, pure, lift, try, wrap, ◌>>=◌, ◌>>◌, get_secret,
  create_secret, delete_secret,
}

abbrev holds : Option String → String → Bool
holds none pat = false
holds (some old) pat = old == pat

module _ (c : Cluster) (namespace secret_name key pat : String) where
  create_pat : M (Unit {0})
  create_pat = wrap (errorf "failed to create secret: ") (
      call c.ack (
        create_secret namespace (record {
          name = secret_name;
          namespace = namespace;
          labels = [];
          annotations = [];
          content = some ((key, pat) ∷ []);
          secret_type = "Opaque";
        })))

  -- Any error of the lookup, not only a missing secret, leads on to the creation.
  abbrev after_get : Result Secret → M (Unit {0})
  after_get (err _) = create_pat
  after_get (ok existing) =
      if holds (lookup key (entries_of existing.content)) pat then pure tt else (do
        wrap (errorf "failed to delete existing secret: ")
            (call c.ack (delete_secret namespace secret_name))
        create_pat)

  -- `CreateOrUpdateSecretWithGitHubPAT`, where `base64` is Go's decoder.
  unfoldable pub create_or_update_secret_with_pat : (String → Result String) → M (Unit {0})
  unfolding create_pat
  create_or_update_secret_with_pat base64 = do
    _ ← wrap (errorf "failed to decode base64 GitHub PAT: ") (lift (base64 pat))
    existing ← try (call c.secret (get_secret namespace secret_name))
    after_get existing
