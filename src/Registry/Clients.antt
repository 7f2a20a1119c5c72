-- ===== src/Registry/Clients.antt =====
-- pkg/imagetag: the clients of the registries, one HTTP request each.
pub mod Laws
use alustan.Base.{
  ℕ, String, Bool, List, Result, ok, err, Error, new_error, ◌<>◌, ◌==◌, leb, ◌&&◌, if◌then◌else◌,
}
use alustan.Cluster.{Cluster, Response, M, call, lift, raise, ◌>>=◌, ◌>>◌, http_get}

-- `http.NewRequest`, and `encoding/json` at the two bodies: the names of "results", and "tags".
pub record TagDecoding : Type 0 where
  pub new_request : String → Result (Unit {0})
  pub docker_tags : String → Result (List String)
  pub ghcr_tags : String → Result (List String)

-- `RegistryClientInterface`: a client is made of its token.
pub data RegistryClient : Type 0 where
  ghcr_client docker_client : String → RegistryClient

abbrev pub is_status_ok : Response → Bool
is_status_ok r = leb r.status_code 200 && leb 200 r.status_code

abbrev pub token_of : RegistryClient → String
token_of (ghcr_client token) = token
token_of (docker_client token) = token

abbrev pub tags_url : RegistryClient → String → String
tags_url (ghcr_client _) image_name = "https://ghcr.io" <> "/v2/" <> image_name <> "/tags/list"
tags_url (docker_client _) image_name =
    "https://hub.docker.com" <> "/v2/repositories/" <> image_name <> "/tags"

abbrev pub decode_tags : TagDecoding → RegistryClient → String → Result (List String)
decode_tags D (ghcr_client _) body = D.ghcr_tags body
decode_tags D (docker_client _) body = D.docker_tags body

-- `GetTags` of both clients
unfoldable pub get_tags : Cluster → TagDecoding → RegistryClient → String → M (List String)
get_tags c D client image_name = do
  lift (D.new_request (tags_url client image_name))
  r ← call c.response (http_get (tags_url client image_name) (token_of client))
  if is_status_ok r
      then lift (decode_tags D client r.body)
      else raise (new_error ("failed to get tags: " <> r.status))
