-- ===== src/Translate/Clusters.antt =====
-- envoyingresscontroller.go: `getClustersForIngress`.
use envoyingresscontroller.Prelude.{
  Bool, true, false, ◌||◌, Option, none, some, List, [], ◌∷◌, Text, TextSet, Map, codes, is_nil,
  any, lookup, put, add, get_text, if◌then◌else◌, ◌==◌, Outcome, ok, err, ◌>>=◌, ◌>>◌, deref,
  collect, no_clusters,
}
use envoyingresscontroller.Constants.{
  service_http_protocol_annotation, service_health_check_path_annotation,
}
use envoyingresscontroller.External.{External}
use envoyingresscontroller.Kube
use envoyingresscontroller.Kube.{
  Listers, Ingress, IngressRule, IngressTls, HttpIngressPath, Service, ServicePort, found?,
}
use envoyingresscontroller.Envoy.{Cluster, auto, eds, strict_dns}
use envoyingresscontroller.Names.{
  cluster_name, alt_stat_name, HttpHealthCheckPolicy, PeerValidationContext,
}
use envoyingresscontroller.Builders.{
  cluster_defaults, edsconfig, static_cluster_load_assignment, upstream_tls_transport_socket,
  upstream_tls_context, http2_protocol_options, management_cluster,
}
use envoyingresscontroller.Resource
use envoyingresscontroller.Resource.{Resource}
use envoyingresscontroller.Matching.{get_node_group_for_ingress, get_services_for_ingress}

-- The policy that the annotation of the service asks for, as `getRouteForIngress` builds it too.
unfoldable pub health_check_policy : Service → Option HttpHealthCheckPolicy
health_check_policy service =
    let path = get_text service_health_check_path_annotation service.annotations in
    if is_nil path
    then none
    else some (record {
      path = path;
      host = [];
      interval = 5;
      timeout = 30;
      unhealthy_threshold = 3;
      healthy_threshold = 1;
    })

-- host2ServiceName: nothing reads the map, but building it reads `rule.HTTP`.
unfoldable pub host_paths : Text → List HttpIngressPath → Map TextSet → Map TextSet
host_paths host [] m = m
host_paths host (p ∷ ps) m = host_paths host ps (elim p.backend.service [
  | none ↦ m
  | some s ↦
      if is_nil s.name
      then m
      else put host (add s.name (elim (lookup host m) [ none ↦ [] | some names ↦ names ])) m
])

unfoldable pub host_services : List IngressRule → Map TextSet → Outcome (Map TextSet)
host_services [] m = ok m
host_services (r ∷ rs) m =
    let rest = λ (m' : Map TextSet). host_services rs m' in
    if is_nil r.host then rest m else deref r.http >>= λ paths. rest (host_paths r.host paths m)

-- Whether a path of the rule is the service's, with the reads that may panic on the way.
unfoldable pub has_service : Text → List HttpIngressPath → Outcome Bool
has_service name [] = ok false
has_service name (p ∷ ps) =
    let rest = has_service name ps in
    deref p.backend.service >>= λ s. if s.name == name then ok true else rest

-- The SNI: the host of the last rule that has a path of the service. The `break` leaves the inner
-- loop only.
unfoldable pub sni_of : Text → List IngressRule → Text → Outcome Text
sni_of name [] sni = ok sni
sni_of name (r ∷ rs) sni = do
  paths ← deref r.http
  hit ← has_service name paths
  sni_of name rs (if hit then r.host else sni)

-- The secret of the last TLS entry that names the host, for the same reason.
unfoldable pub tls_secret_name : Text → List IngressTls → Text → Text
tls_secret_name host [] name = name
tls_secret_name host (t ∷ ts) name =
    tls_secret_name host ts (if any (λ h. h == host) t.hosts then t.secret_name else name)

-- `sec`: nil without a name, and nil where the lister has none.
unfoldable pub upstream_secret : Listers → Ingress → Text → Option Kube.Secret
upstream_secret ls ingress sni =
    let name = if is_nil sni then [] else tls_secret_name sni ingress.tls [] in
    if is_nil name then none else found? (ls.get_secret ingress.namespace name)

-- The switch that sets `UpstreamValidation`.
unfoldable pub upstream_peer : Text → Option Kube.Secret → Text → Option PeerValidationContext
upstream_peer protocol sec sni =
    if protocol == codes "tls" || protocol == codes "h2"
    then elim sec [
      | none ↦ none
      | some s ↦ some (record { ca_certificate = some s; subject_name = sni })
    ]
    else none

-- The second switch on the protocol.
unfoldable pub secure_cluster :
    External → Text → Option PeerValidationContext → Text → Option Kube.Secret → Cluster → Cluster
secure_cluster d protocol peer sni sec c =
    if protocol == codes "tls"
    then record c {
      transport_socket =
          some (upstream_tls_transport_socket (upstream_tls_context d peer sni sec []));
    }
    else if protocol == codes "h2"
    then record c {
      protocol_options = http2_protocol_options;
      transport_socket =
          some
            (upstream_tls_transport_socket (upstream_tls_context d peer sni sec (codes "h2" ∷ [])));
    }
    else if protocol == codes "h2c"
    then record c { protocol_options = http2_protocol_options }
    else c

-- The switch on the length of the external name.
unfoldable pub discover_cluster : Service → ServicePort → Cluster → Cluster
discover_cluster service port c =
    if is_nil service.external_name
    then record c {
      discovery_type = eds;
      eds_cluster_config = some (edsconfig management_cluster service port);
    }
    else record c {
      discovery_type = strict_dns;
      load_assignment = some (static_cluster_load_assignment service port);
    }

abbrev pub protocol_of : Service → Text
protocol_of service = get_text service_http_protocol_annotation service.annotations

-- The name of the cluster of a port, as this function computes it.
unfoldable pub name_for_port :
    Listers → External → Ingress → Service → Text → ServicePort → Outcome Text
name_for_port ls d ingress service sni port =
    cluster_name d service port [] (health_check_policy service)
      (upstream_peer (protocol_of service) (upstream_secret ls ingress sni) sni)

-- The body of the loop over the service's ports.
unfoldable pub cluster_for_port :
    Listers → External → Ingress → TextSet → Service → ServicePort → Outcome (List Resource)
cluster_for_port ls d ingress nodegroup service port = do
  sni ← sni_of service.name ingress.rules []
  name ← name_for_port ls d ingress service sni port
  let sec = upstream_secret ls ingress sni
  let peer = upstream_peer (protocol_of service) sec sni
  let named = record cluster_defaults {
    name = name;
    alt_stat_name = alt_stat_name service port;
    dns_lookup_family = auto;
  }
  ok (
      record {
        name = name;
        namespace = ingress.namespace;
        resource_version = service.resource_version;
        node_group = nodegroup;
        ingress_ref = d.key_func ingress ∷ [];
        spec = Resource.cluster (
            secure_cluster d (protocol_of service) peer sni sec
              (discover_cluster service port named));
      }
      ∷ [])

-- getClustersForIngress
unfoldable pub get_clusters_for_ingress : Listers → External → Ingress → Outcome (List Resource)
get_clusters_for_ingress ls d ingress = do
  nodegroup ← get_node_group_for_ingress ingress
  services ← get_services_for_ingress ls ingress
  host_services ingress.rules []
  clusters ←
      collect (λ service. collect (cluster_for_port ls d ingress nodegroup service) service.ports)
        services
  if is_nil clusters then err no_clusters else ok clusters
