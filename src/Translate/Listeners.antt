-- ===== src/Translate/Listeners.antt =====
-- envoyingresscontroller.go: `getListenersForIngress`.
use envoyingresscontroller.Prelude.{
  ℕ, Option, none, some, List, [], ◌∷◌, ◌++◌, Text, TextSet, codes, is_nil, any, itoa,
  if◌then◌else◌, ◌==◌, Outcome, ok, err, ◌>>=◌, deref, collect, no_listeners,
}
use envoyingresscontroller.Constants.{
  envoy_http_listener, envoy_https_listener, default_http_listener_address,
}
use envoyingresscontroller.External.{External}
use envoyingresscontroller.Kube
use envoyingresscontroller.Kube.{
  Listers, Ingress, IngressRule, IngressTls, IngressServiceBackend, HttpIngressPath, found?,
}
use envoyingresscontroller.Envoy
use envoyingresscontroller.Envoy.{
  HttpConnectionManager, version_auto, connection_manager, Filter, FilterChain, tls_v1_0,
}
use envoyingresscontroller.Names.{hashname}
use envoyingresscontroller.Builders.{
  management_cluster, config_source, listener, filter_chain_tls, downstream_tls_context,
  proto_names_for_versions,
}
use envoyingresscontroller.Resource
use envoyingresscontroller.Resource.{Resource}
use envoyingresscontroller.Matching.{get_node_group_for_ingress}

-- The labelled loop: the secret of the first TLS entry that names the host, if there is one.
unfoldable pub listener_tls : Text → List IngressTls → Option Text
listener_tls host [] = none
listener_tls host (t ∷ ts) =
    if any (λ h. h == host) t.hosts then some t.secret_name else listener_tls host ts

-- `httpCm`, which both halves of the loop build.
unfoldable pub http_connection_manager : HttpConnectionManager
http_connection_manager = record {
  stat_prefix = codes "envoyingresscontroller";
  codec_type = version_auto;
  route_config_name = envoy_http_listener;
  config_source = config_source management_cluster;
  http_filters =
      record {
        name = codes "router";
        type_url = codes "type.googleapis.com/envoy.extensions.filters.http.router.v3.Router";
      }
      ∷ [];
}

-- `cm`; the name is wellknown.HTTPConnectionManager.
unfoldable pub connection_filter : Filter
connection_filter = record {
  name = codes "envoy.filters.network.http_connection_manager";
  typed_config = connection_manager http_connection_manager;
}

unfoldable pub listener_name : External → Text → ℕ → Text
listener_name d prefix port =
    hashname d 60 (prefix ∷ default_http_listener_address ∷ itoa port ∷ [])

unfoldable pub listener_resource : External → Ingress → TextSet → Text → Envoy.Listener → Resource
listener_resource d ingress nodegroup name l = record {
  name = name;
  namespace = ingress.namespace;
  resource_version = ingress.resource_version;
  node_group = nodegroup;
  ingress_ref = d.key_func ingress ∷ [];
  spec = Resource.listener l;
}

unfoldable pub http_listener : External → Ingress → TextSet → IngressServiceBackend → Resource
http_listener d ingress nodegroup backend =
    let name = listener_name d envoy_http_listener backend.port.number in
    listener_resource d ingress nodegroup name
      (listener name default_http_listener_address backend.port.number (connection_filter ∷ []))

-- The listener itself is called `ingress_https`, and only its resource has the hashed name.
unfoldable pub https_listener :
    External → Ingress → TextSet → FilterChain → IngressServiceBackend → Resource
https_listener d ingress nodegroup chain backend =
    let l = listener envoy_https_listener default_http_listener_address backend.port.number [] in
    listener_resource d ingress nodegroup (listener_name d envoy_https_listener backend.port.number)
      (record l { filter_chains = l.filter_chains ++ chain ∷ [] })

-- The loop over the paths: one whose backend is no service is passed over.
unfoldable pub path_listeners :
    (IngressServiceBackend → Resource) → List HttpIngressPath → List Resource
path_listeners build [] = []
path_listeners build (p ∷ ps) =
    let rest = path_listeners build ps in
    elim p.backend.service [ none ↦ rest | some s ↦ build s ∷ rest ]

-- The filter chain of a rule with TLS.
unfoldable pub tls_chain : External → Text → Kube.Secret → FilterChain
tls_chain d host s =
    filter_chain_tls host
      (some (
        downstream_tls_context d s tls_v1_0
          (some (record { ca_certificate = none; subject_name = [] }))
          (proto_names_for_versions (version_auto ∷ []))))
      (connection_filter ∷ [])

-- The second half of the loop: a secret that the lister does not give ends the round.
unfoldable pub https_listeners :
    Listers
    → External
    → Ingress
    → TextSet
    → Text
    → List HttpIngressPath
    → Option Text
    → List Resource
https_listeners ls d ingress nodegroup host paths none = []
https_listeners ls d ingress nodegroup host paths (some secret_name) =
    elim (found? (ls.get_secret ingress.namespace secret_name)) [
      | none ↦ []
      | some s ↦ path_listeners (https_listener d ingress nodegroup (tls_chain d host s)) paths
    ]

unfoldable pub rule_listeners :
    Listers → External → Ingress → TextSet → IngressRule → Outcome (List Resource)
rule_listeners ls d ingress nodegroup rule = do
  paths ← deref rule.http
  ok (
      path_listeners (http_listener d ingress nodegroup) paths
      ++ https_listeners ls d ingress nodegroup rule.host paths
          (listener_tls rule.host ingress.tls))

-- getListenersForIngress
unfoldable pub get_listeners_for_ingress : Listers → External → Ingress → Outcome (List Resource)
get_listeners_for_ingress ls d ingress = do
  nodegroup ← get_node_group_for_ingress ingress
  listeners ← collect (rule_listeners ls d ingress nodegroup) ingress.rules
  if is_nil listeners then err no_listeners else ok listeners
