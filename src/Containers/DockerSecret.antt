-- ===== src/Containers/DockerSecret.antt =====
-- pkg/containers/createDockerSecret.go: the registry credentials of CONTAINER_REGISTRY_SECRET are
-- stored as a pull secret and returned. A byte slice is kept as a text, and its comparison is `==`.
use alustan.Base.{
  String, Bool, false, Option, none, some, [], ◌∷◌, Result, ok, err, errorf, new_error,
  is_already_exists, StringMap, lookup, insert, bind_result, map_error, ◌<>◌, ◌==◌, if◌then◌else◌,
}
use alustan.Cluster.{
  crash, entries_of, Cluster, Secret, M, call, pure, raise, lift, try, wrap, ◌>>=◌, ◌>>◌,
  get_secret, create_secret, update_secret,
}

-- Go's `encoding/base64`, `encoding/json` at `DockerConfig`, and `strings.SplitN(s, ":", 2)`: the
-- auth field of each registry, and the two parts of a credential that has a colon.
pub record Decoding : Type 0 where
  pub base64 : String → Result String
  pub docker_auths : String → Result (StringMap String)
  pub split_colon : String → Option (String × String)

module _ (D : Decoding) where
  abbrev credentials_or_error : String → Option (String × String) → Result (String × String)
  credentials_or_error registry none =
      err (new_error ("invalid auth format for registry " <> registry))
  credentials_or_error registry (some parts) = ok parts

  -- The loop takes the first entry only.
  unfoldable pub first_credentials : StringMap String → Result (String × String)
  first_credentials [] = ok ("", "")
  first_credentials ((registry, auth) ∷ _) =
      bind_result
        (map_error (errorf ("failed to decode auth for registry " <> registry <> ": "))
          (D.base64 auth))
        (λ decoded. credentials_or_error registry (D.split_colon decoded))

  -- The checks that come before the first request.
  unfoldable pub decode_config : String → Result (String × (String × String))
  unfolding first_credentials
  decode_config encoded =
      bind_result
        (map_error (errorf "invalid base64 encoded docker config JSON: ") (D.base64 encoded))
        λ decoded.
          bind_result
            (map_error (errorf "failed to parse docker config JSON: ") (D.docker_auths decoded))
            λ auths. bind_result (first_credentials auths) λ parts. ok (decoded, parts)

module _ (c : Cluster) (secret_name namespace : String) where
  abbrev docker_key : String
  docker_key = ".dockerconfigjson"

  -- The secret that is asked for.
  abbrev pub docker_secret : String → Secret
  docker_secret decoded = record {
    name = secret_name;
    namespace = namespace;
    labels = [];
    annotations = [];
    content = some ((docker_key, decoded) ∷ []);
    secret_type = "kubernetes.io/dockerconfigjson";
  }

  abbrev up_to_date : Option String → String → Bool
  up_to_date none decoded = false
  up_to_date (some old) decoded = old == decoded

  -- The write into `Data`, which panics if the map is nil, and the update.
  abbrev pub write_content : Secret → String → Option (StringMap String) → M (Unit {0})
  write_content existing decoded none = crash
  write_content existing decoded (some content) =
      wrap (errorf "failed to update existing secret: ") (
        call c.ack (
          update_secret namespace
            (record existing { content = some (insert docker_key decoded content) })))

  unfoldable pub refresh : Secret → String → M (Unit {0})
  unfolding insert lookup
  refresh existing decoded =
      if up_to_date (lookup docker_key (entries_of existing.content)) decoded
      then pure tt
      else write_content existing decoded existing.content

  abbrev pub after_create : String → Result (Unit {0}) → M (Unit {0})
  after_create decoded (ok _) = pure tt
  after_create decoded (err e) =
      if is_already_exists e
      then (do
        existing ←
            wrap (errorf "failed to get existing secret: ")
              (call c.secret (get_secret namespace secret_name))
        refresh existing decoded)
      else raise (errorf "failed to create secret: " e)

  -- `CreateDockerConfigSecret`: the user name and the password.
  unfoldable pub create_docker_config_secret : Decoding → String → M (String × String)
  unfolding decode_config refresh
  create_docker_config_secret D encoded = do
    (decoded, parts) ← lift (decode_config D encoded)
    r ← try (call c.ack (create_secret namespace (docker_secret decoded)))
    after_create decoded r
    pure parts
