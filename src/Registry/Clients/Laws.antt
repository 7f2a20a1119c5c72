-- ===== src/Registry/Clients/Laws.antt =====
-- About `GetTags` of pkg/imagetag/docker.go and pkg/imagetag/ghcr.go.
use alustan.Base.{String, List, ok, ◌∷◌, ◌≡◌, inl, inr, Result-cases, arith}
use alustan.Cluster.{Cluster, History, Response, returns, http_get}
use alustan.Registry.Clients.{
  TagDecoding, RegistryClient, token_of, tags_url, decode_tags, get_tags,
}

-- Tags that a client returns are those that the body of an answer with status 200 decodes to; one
-- request was sent, to the registry of the client and with its token.
pub get_tags-ok :
    (c : Cluster) (D : TagDecoding) (client : RegistryClient) (image_name : String) (h : History)
    (tags : List String)
    → (get_tags c D client image_name h).0 ≡ returns (ok tags)
    → let q = http_get (tags_url client image_name) (token_of client) in
      (r : Response) × (c.response h q ≡ ok r)
      × (r.status_code ≡ 200)
      × (decode_tags D client r.body ≡ ok tags)
      × ((get_tags c D client image_name h).1 ≡ q ∷ h)
unfolding get_tags
get_tags-ok c D client image_name h tags p =
    elim (Result-cases (D.new_request (tags_url client image_name))) [
      | inr (e, x) ↦ absurd (ground arith)
      | inl (_, made) ↦
          elim (Result-cases
            (c.response h (http_get (tags_url client image_name) (token_of client)))) [
              | inr (e, x) ↦ absurd (ground arith)
              | inl (r, x) ↦ (r, x, ground arith, ground arith, ground arith)
            ]
    ]
