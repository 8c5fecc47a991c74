-- ===== src/Translate/Endpoints.antt =====
-- envoyingresscontroller.go: `getEndpointsForIngress`.
use envoyingresscontroller.Prelude.{
  Bool, true, false, ◌&&◌, ◌||◌, not, Option, none, some, List, [], ◌∷◌, ◌++◌, map, Text, TextSet,
  codes, is_nil, eqb, ltb, if◌then◌else◌, ◌==◌, Outcome, ok, err, ◌>>=◌, no_load_assignments,
}
use envoyingresscontroller.Constants.{dash}
use envoyingresscontroller.External.{External}
use envoyingresscontroller.Kube.{Listers, Ingress, Service, ServicePort, EndpointSubset, found?}
use envoyingresscontroller.Envoy.{LbEndpoint}
use envoyingresscontroller.Names.{hashname}
use envoyingresscontroller.Builders.{lb_endpoint, socket_address}
use envoyingresscontroller.Resource
use envoyingresscontroller.Resource.{Resource}
use envoyingresscontroller.Matching.{get_node_group_for_ingress, get_services_for_ingress}

-- The order of Go strings, byte by byte.
unfoldable pub text_lt : Text → Text → Bool
text_lt [] [] = false
text_lt [] (b ∷ t) = true
text_lt (a ∷ s) [] = false
text_lt (a ∷ s) (b ∷ t) = ltb a b || eqb a b && text_lt s t

unfoldable pub insert_sorted : Text → List Text → List Text
insert_sorted a [] = a ∷ []
insert_sorted a (b ∷ bs) = if text_lt b a then b ∷ insert_sorted a bs else a ∷ b ∷ bs

-- sort.Slice of the addresses by their IP.
unfoldable pub sort_addresses : List Text → List Text
sort_addresses [] = []
sort_addresses (a ∷ as') = insert_sorted a (sort_addresses as')

-- Whether a port of the subset serves the service's port.
unfoldable pub port_serves : ServicePort → ServicePort → Bool
port_serves service_port p =
    if not (service_port.protocol == p.protocol) && not (p.protocol == codes "TCP")
    then false
    else is_nil service_port.name || service_port.name == p.name

unfoldable pub subset_endpoints : ServicePort → List Text → List ServicePort → List LbEndpoint
unfolding port_serves
subset_endpoints service_port addresses [] = []
subset_endpoints service_port addresses (p ∷ ps) =
    let rest = subset_endpoints service_port addresses ps in
    if port_serves service_port p
    then map (λ a. lb_endpoint (socket_address a p.port)) (sort_addresses addresses) ++ rest
    else rest

unfoldable pub lb_endpoints : ServicePort → List EndpointSubset → List LbEndpoint
lb_endpoints service_port [] = []
lb_endpoints service_port (s ∷ ss) =
    subset_endpoints service_port s.addresses s.ports ++ lb_endpoints service_port ss

unfoldable pub endpoint_resource :
    External → Ingress → TextSet → Service → List LbEndpoint → Resource
endpoint_resource d ingress nodegroup service lbs = record {
  name = hashname d 60 (service.name ∷ service.namespace ∷ []);
  namespace = service.namespace;
  resource_version = service.resource_version;
  node_group = nodegroup;
  ingress_ref = d.key_func ingress ∷ [];
  spec = Resource.endpoint (record {
    cluster_name = service.namespace ++ dash ∷ service.name;
    endpoints = record { lb_endpoints = lbs; load_balancing_weight = some 1 } ∷ [];
  });
}

-- The loop over the ports assigns `clusterLoadAssignment`, so the last port's value stays. The
-- variable lives outside the loop over the services: the first argument is its value before.
unfoldable pub endpoint_ports :
    Option Resource
    → Listers
    → External
    → Ingress
    → TextSet
    → Service
    → List ServicePort
    → Option Resource
endpoint_ports current ls d ingress nodegroup service [] = current
endpoint_ports current ls d ingress nodegroup service (p ∷ ps) =
    endpoint_ports
      (elim (found? (ls.get_endpoints service.namespace service.name)) [
        | none ↦ current
        | some e ↦ some (endpoint_resource d ingress nodegroup service (lb_endpoints p e.subsets))
      ])
      ls d ingress nodegroup service ps

abbrev some_onto : Option Resource → List Resource → List Resource
some_onto none rs = rs
some_onto (some r) rs = r ∷ rs

unfoldable pub endpoint_services :
    Option Resource → Listers → External → Ingress → TextSet → List Service → List Resource
endpoint_services current ls d ingress nodegroup [] = []
endpoint_services current ls d ingress nodegroup (s ∷ ss) =
    let current' = endpoint_ports current ls d ingress nodegroup s s.ports in
    some_onto current' (endpoint_services current' ls d ingress nodegroup ss)

-- getEndpointsForIngress
unfoldable pub get_endpoints_for_ingress : Listers → External → Ingress → Outcome (List Resource)
get_endpoints_for_ingress ls d ingress = do
  nodegroup ← get_node_group_for_ingress ingress
  services ← get_services_for_ingress ls ingress
  let resources = endpoint_services none ls d ingress nodegroup services
  if is_nil resources then err no_load_assignments else ok resources
