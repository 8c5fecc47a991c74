-- ===== src/Tests/Translated.antt =====
-- The searches and the names between resources, on the sample objects.
use envoyingresscontroller.Prelude.{
  true, ◌≡◌, ◌≢◌, refl, some, none, [], ◌∷◌, Text, codes, keep, ok, inr, ◌↔◌, ◌==◌, replicate,
  get_text, lookup,
}
use mathlib.Core.List.{Memᴰ}
use envoyingresscontroller.Kube
use envoyingresscontroller.Kube.{Ingress, Service, ServicePort, found?}
use envoyingresscontroller.Envoy.{ClusterLoadAssignment}
use envoyingresscontroller.Builders.{edsconfig}
use envoyingresscontroller.Resource
use envoyingresscontroller.Matching.{
  is_envoy_ingress, select_for_ingress, ingress_names, default_backend_names, rules_name,
  paths_name, merged_ingresses, get_ingresses_for_service, get_services_for_ingress,
}
use envoyingresscontroller.Matching.Sound.{
  IsComplete, reaches_service, get_ingresses_for_service-exact,
}
use envoyingresscontroller.Matching.Agreement.{get_ingresses_for_service-agrees}
use envoyingresscontroller.Names.{cluster_name, validation_part}
use envoyingresscontroller.Translate.Clusters.{name_for_port}
use envoyingresscontroller.Translate.Endpoints.{endpoint_resource}
use envoyingresscontroller.Translate.Routes.{
  route_cluster_name, port_routes, route_peer, host_secrets,
}
use envoyingresscontroller.Translate.Contracts.{
  edsconfig-unserved, route_cluster_name-agrees, port_routes-last, route_for,
}
use envoyingresscontroller.Tests.{digests, listers, front, shop, shop_path, web_port, admin_port}

pub front-IsComplete : IsComplete front
front-IsComplete = ((shop_path ∷ [], refl, ((_, refl), tt)), tt)

pub merged : merged_ingresses listers (codes "ns") ≡ some (front ∷ [])
unfolding merged_ingresses
merged = refl

get_ingresses_for_service-exact_example :
    get_ingresses_for_service listers shop ≡ ok (keep (reaches_service shop) (front ∷ []))
get_ingresses_for_service-exact_example =
    get_ingresses_for_service-exact listers shop (front ∷ []) refl merged (front-IsComplete, tt)

front_has_class : is_envoy_ingress front ≡ true
unfolding is_envoy_ingress get_text lookup ◌==◌
front_has_class = refl

ingresses_found : get_ingresses_for_service listers shop ≡ ok (front ∷ [])
unfolding is_envoy_ingress get_text lookup get_ingresses_for_service merged_ingresses ◌==◌
    default_backend_names
ingresses_found =
    get_ingresses_for_service-exact listers shop (front ∷ []) refl merged (front-IsComplete, tt)

services_found : get_services_for_ingress listers front ≡ ok (shop ∷ [])
unfolding get_services_for_ingress select_for_ingress ◌==◌ ingress_names default_backend_names
    rules_name paths_name
services_found = refl

get_ingresses_for_service-agrees_example : Memᴰ shop (shop ∷ []) ↔ Memᴰ front (front ∷ [])
get_ingresses_for_service-agrees_example =
    get_ingresses_for_service-agrees listers shop front (front ∷ []) (front ∷ []) (shop ∷ [])
      (shop ∷ []) refl front_has_class merged (front-IsComplete, tt) front-IsComplete
      (Memᴰ.head refl) refl (Memᴰ.head refl) ingresses_found services_found

edsconfig-unserved_example :
    (a : ClusterLoadAssignment) × ((endpoint_resource digests front [] shop []).spec
      ≡ Resource.endpoint a)
    × ((edsconfig (codes "xds") shop web_port).service_name ≢ a.cluster_name)
edsconfig-unserved_example = edsconfig-unserved digests front [] [] (codes "xds") shop web_port

route_cluster_name-agrees_example :
    route_cluster_name listers digests front (codes "a.b") shop web_port
    ≡ name_for_port listers digests front shop (codes "a.b") web_port
route_cluster_name-agrees_example =
    route_cluster_name-agrees listers digests front (codes "a.b") shop web_port refl refl (inr refl)

abbrev cluster_of : ServicePort → Text
cluster_of q = elim (route_cluster_name listers digests front (codes "a.b") shop q) [
  | ok t ↦ t
  | _ ↦ []
]

has_cluster :
    (q : ServicePort)
    → route_cluster_name listers digests front (codes "a.b") shop q ≡ ok (cluster_of q)
unfolding route_cluster_name route_peer cluster_name validation_part lookup host_secrets
has_cluster q = refl

port_routes-last_example :
    port_routes listers digests front
      (codes "a.b")
      shop_path
      shop
      (record { match = none; cluster = none })
      0
      (web_port ∷ admin_port ∷ [])
    ≡ ok (replicate 2 (route_for Kube.prefix (codes "/") (cluster_of admin_port)))
port_routes-last_example =
    port_routes-last listers digests front (codes "a.b") shop_path shop
      (record { match = none; cluster = none }) 0 web_port (admin_port ∷ []) Kube.prefix cluster_of
      refl has_cluster
