-- ===== src/Kube/IngressUrls.antt =====
-- pkg/application/kubernetes/urls.go: the addresses of the preview namespaces.
use alustan.Base.{
  String, List, [], ◌∷◌, ◌++◌, StringMap, errorf, starts_with, ◌==◌, ◌<>◌, insert, if◌then◌else◌,
}
use alustan.Cluster.{Cluster, M, call, pure, wrap, ◌>>=◌, list_namespaces, list_ingresses}

-- The rules of one ingress; a rule with no host has no address.
unfoldable pub rule_urls : List String → List String
rule_urls [] = []
rule_urls (host ∷ hosts) =
    if host == "" then rule_urls hosts else ("https://" <> host) ∷ rule_urls hosts

unfoldable pub namespace_urls : List (List String) → List String
unfolding rule_urls
namespace_urls [] = []
namespace_urls (ingress ∷ ingresses) = rule_urls ingress ++ namespace_urls ingresses

module _ (c : Cluster) where
  -- One round of the loop over the namespaces.
  abbrev add_namespace : String → StringMap (List String) → M (StringMap (List String))
  add_namespace namespace urls = do
    ingresses ←
        wrap (errorf ("failed to list Ingress resources in namespace " <> namespace <> ": "))
          (call c.hosts (list_ingresses namespace))
    pure (insert namespace (namespace_urls ingresses) urls)

  unfoldable pub collect_urls : List String → StringMap (List String) → M (StringMap (List String))
  unfolding namespace_urls insert
  collect_urls [] urls = pure urls
  collect_urls (namespace ∷ namespaces) urls = do
    urls' ← if starts_with namespace "preview" then add_namespace namespace urls else pure urls
    collect_urls namespaces urls'

  -- `GetAllIngressURLs`
  unfoldable pub get_all_ingress_urls : M (StringMap (List String))
  get_all_ingress_urls = do
    namespaces ← wrap (errorf "failed to list namespaces: ") (call c.names list_namespaces)
    collect_urls namespaces []
