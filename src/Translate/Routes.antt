-- ===== src/Translate/Routes.antt =====
-- envoyingresscontroller.go: `getRouteForIngress`.
use envoyingresscontroller.Prelude.{
  ℕ, suc, Option, none, some, List, [], ◌∷◌, Text, Map, codes, is_nil, lookup, put, replicate,
  if◌then◌else◌, Outcome, ok, err, ◌>>=◌, deref, collect, no_virtual_hosts,
}
use envoyingresscontroller.Constants.{envoy_http_listener}
use envoyingresscontroller.External.{External}
use envoyingresscontroller.Kube.{
  Listers, Ingress, IngressRule, IngressTls, HttpIngressPath, PathType, exact, prefix,
  implementation_specific, unknown, Service, ServicePort, found?,
}
use envoyingresscontroller.Envoy
use envoyingresscontroller.Envoy.{Route, VirtualHost, PathSpecifier}
use envoyingresscontroller.Names.{hashname, cluster_name, PeerValidationContext}
use envoyingresscontroller.Builders.{route_configuration}
use envoyingresscontroller.Resource
use envoyingresscontroller.Resource.{Resource}
use envoyingresscontroller.Matching.{get_node_group_for_ingress}
use envoyingresscontroller.Translate.Clusters.{health_check_policy}

-- host2Secret: a later entry replaces an earlier one, and an empty host has none.
unfoldable pub hosts_onto : Text → List Text → Map Text → Map Text
hosts_onto secret_name [] m = m
hosts_onto secret_name (h ∷ hs) m =
    hosts_onto secret_name hs (if is_nil h then m else put h secret_name m)

unfoldable pub host_secrets : List IngressTls → Map Text → Map Text
host_secrets [] m = m
host_secrets (t ∷ ts) m = host_secrets ts (hosts_onto t.secret_name t.hosts m)

-- `UpstreamValidation` of a rule: set wherever the host has a secret that the lister gives.
unfoldable pub route_peer : Listers → Ingress → Text → Option PeerValidationContext
route_peer ls ingress host = elim (lookup host (host_secrets ingress.tls [])) [
  | none ↦ none
  | some name ↦ elim (found? (ls.get_secret ingress.namespace name)) [
    | none ↦ none
    | some s ↦ some (record { ca_certificate = some s; subject_name = host })
  ]
]

-- The switch on the path type. An implementation specific path has the cluster's name for a regular
-- expression.
unfoldable pub path_specifier : PathType → Text → Text → PathSpecifier
path_specifier exact path cluster = Envoy.path path
path_specifier implementation_specific path cluster = Envoy.safe_regex cluster
path_specifier prefix path cluster = Envoy.prefix path
path_specifier (unknown t) path cluster = Envoy.prefix path

-- The name that a route gives its cluster.
unfoldable pub route_cluster_name :
    Listers → External → Ingress → Text → Service → ServicePort → Outcome Text
route_cluster_name ls d ingress host service port =
    cluster_name d service port [] (health_check_policy service) (route_peer ls ingress host)

-- The loop over the service's ports. `route` is one object for the whole path: each round changes it
-- and appends the same pointer once more, so at the end all `n` entries are the last round's.
unfoldable pub port_routes :
    Listers
    → External
    → Ingress
    → Text
    → HttpIngressPath
    → Service
    → Route
    → ℕ
    → List ServicePort
    → Outcome (List Route)
port_routes ls d ingress host path service route n [] = ok (replicate n route)
port_routes ls d ingress host path service route n (port ∷ ports) = do
  cluster ← route_cluster_name ls d ingress host service port
  path_type ← deref path.path_type
  port_routes ls d ingress host path service
      (record { match = some (path_specifier path_type path.path cluster); cluster = some cluster })
      (suc n) ports

abbrev empty_route : Route
empty_route = record { match = none; cluster = none }

-- The body of the loop over the paths: a service that the lister does not give is passed over.
unfoldable pub path_routes :
    Listers → External → Ingress → Text → HttpIngressPath → Outcome (List Route)
path_routes ls d ingress host path = do
  backend ← deref path.backend.service
  elim (found? (ls.get_service ingress.namespace backend.name)) [
    | none ↦ ok []
    | some service ↦ port_routes ls d ingress host path service empty_route 0 service.ports
  ]

-- The body of the loop over the rules: a rule with no route gives no virtual host.
unfoldable pub rule_virtual_hosts :
    Listers → External → Ingress → IngressRule → Outcome (List VirtualHost)
rule_virtual_hosts ls d ingress rule = do
  paths ← deref rule.http
  routes ← collect (path_routes ls d ingress rule.host) paths
  ok (
      if is_nil routes
      then []
      else record {
        name = hashname d 60 (rule.host ∷ []);
        domains = rule.host ∷ [];
        routes = routes;
      }
        ∷ [])

-- getRouteForIngress
unfoldable pub get_route_for_ingress : Listers → External → Ingress → Outcome Resource
get_route_for_ingress ls d ingress = do
  nodegroup ← get_node_group_for_ingress ingress
  hosts ← collect (rule_virtual_hosts ls d ingress) ingress.rules
  if is_nil hosts
      then err no_virtual_hosts
      else ok (record {
        name = hashname d 60 (ingress.name ∷ ingress.namespace ∷ codes "envoyroute" ∷ []);
        namespace = ingress.namespace;
        resource_version = ingress.resource_version;
        node_group = nodegroup;
        ingress_ref = d.key_func ingress ∷ [];
        spec = Resource.route (route_configuration envoy_http_listener hosts);
      })
