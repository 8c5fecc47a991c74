-- ===== src/Resource.antt =====
-- cloud/pkg/envoyingresscontroller/resource.go: an Envoy message with its name and its references,
-- and `EnvoyResourceKeyFunc` of envoyingresscontroller.go. A resource's own lock is not modelled.
use envoyingresscontroller.Prelude.{◌∷◌, ◌++◌, Text, TextSet, codes, is_nil, if◌then◌else◌}
use envoyingresscontroller.Constants.{slash}
use envoyingresscontroller.Envoy.{
  TlsSecret, ClusterLoadAssignment, Cluster, RouteConfiguration, Listener,
}

-- What may stand in the field Spec, an interface: the five messages, or something else.
pub data Spec : Type 0 where
  secret : TlsSecret → Spec
  endpoint : ClusterLoadAssignment → Spec
  cluster : Cluster → Spec
  route : RouteConfiguration → Spec
  listener : Listener → Spec
  other : Spec

-- Resource
pub record Resource : Type 0 where
  pub name : Text
  pub namespace : Text
  pub resource_version : Text
  pub node_group : TextSet
  pub ingress_ref : TextSet
  pub spec : Spec

-- The kinds SECRET, ENDPOINT, CLUSTER, ROUTE and LISTENER, as they stand in a message's resource.
abbrev pub secret_kind : Text
secret_kind = codes "Secret"

abbrev pub endpoint_kind : Text
endpoint_kind = codes "Endpoint"

abbrev pub cluster_kind : Text
cluster_kind = codes "Cluster"

abbrev pub route_kind : Text
route_kind = codes "Route"

abbrev pub listener_kind : Text
listener_kind = codes "Listener"

-- EnvoyResourceKeyFunc of a resource that is not nil.
unfoldable pub envoy_resource_key_func : Resource → Text
envoy_resource_key_func r = if is_nil r.namespace then r.name else r.namespace ++ slash ∷ r.name
