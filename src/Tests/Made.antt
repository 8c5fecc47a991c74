-- ===== src/Tests/Made.antt =====
-- The resources of the sample ingress, and the store after its synchronisation.
use envoyingresscontroller.Prelude.{
  split, get_text, lookup, ◌==◌, add, put, itoa, digits_onto, ◌≡◌, refl, List, [], Outcome, ok, err,
  panics, codes, true, Option, none, some, remove, discard, join, inl, resource_missing, ◌∷◌,
}
use envoyingresscontroller.Kube.{Listers, found, not_found}
use envoyingresscontroller.Resource.{Resource, envoy_resource_key_func}
use envoyingresscontroller.Matching.{
  is_envoy_ingress, get_node_group_for_ingress, nodegroup_set, get_services_for_ingress,
  select_for_ingress, ingress_names, default_backend_names, rules_name, paths_name,
}
use envoyingresscontroller.Names.{hashname, cluster_name, validation_part, health_check_part}
use envoyingresscontroller.Location.{get_list}
use envoyingresscontroller.Translate.Secrets.{get_secrets_for_ingress, secret_loop}
use envoyingresscontroller.Translate.Endpoints.{
  get_endpoints_for_ingress, endpoint_services, endpoint_ports,
}
use envoyingresscontroller.Translate.Clusters.{
  get_clusters_for_ingress, cluster_for_port, host_services, host_paths, sni_of, has_service,
  name_for_port, upstream_peer, upstream_secret, health_check_policy,
}
use envoyingresscontroller.Translate.Routes.{
  get_route_for_ingress, rule_virtual_hosts, path_routes, port_routes, route_cluster_name,
  route_peer, host_secrets,
}
use envoyingresscontroller.Translate.Listeners.{
  get_listeners_for_ingress, rule_listeners, path_listeners, listener_tls, https_listeners,
  http_listener, listener_resource, listener_name,
}
use envoyingresscontroller.Controller.{
  Controller, Run, returns, fails, blocks, initialize_fields, lock, read_lock, names_of,
}
use envoyingresscontroller.Controller.Dispatch.{
  sync_envoy_resource, process_next_envoy_resource_work_item, drop_unreferenced, send_copy,
  dispatch_to, nodes_to_send,
}
use envoyingresscontroller.Controller.Sync.{
  envoy_resources, tolerate, sync_envoy_ingress, sync_answer, sync_present, store_resources,
  retire_loop, ensure_names, set_node_groups, insert_loop, insert_resource, create_resource,
  update_resource, release_loop, release_resource, delete_ingress_resources,
}
use envoyingresscontroller.Controller.Invariant.{IsValid, IsFree}
use envoyingresscontroller.Controller.Reach.{
  here, next, ingress_synced, resource_synced, initialize_fields-IsValid, Reach-IsValid,
}
use envoyingresscontroller.Controller.Waiting.{sync_envoy_resource-missing}
use envoyingresscontroller.Controller.Stored.{last_with, IsHeld, sync_envoy_ingress-IsHeld}
use envoyingresscontroller.Tests.{digests, layer, initial, listers, front, cert}

abbrev made : Outcome (List Resource) → List Resource
made (ok rs) = rs
made (err e) = []
made panics = []

resources_made :
    envoy_resources listers digests front ≡ ok (made (envoy_resources listers digests front))
unfolding envoy_resources tolerate get_secrets_for_ingress secret_loop get_node_group_for_ingress
    nodegroup_set split get_text lookup ◌==◌ add put itoa digits_onto get_endpoints_for_ingress
    endpoint_services endpoint_ports get_services_for_ingress select_for_ingress ingress_names
    default_backend_names rules_name paths_name get_clusters_for_ingress cluster_for_port
    host_services host_paths sni_of has_service name_for_port cluster_name validation_part
    upstream_peer upstream_secret get_route_for_ingress rule_virtual_hosts path_routes port_routes
    route_cluster_name route_peer host_secrets get_listeners_for_ingress rule_listeners
    path_listeners listener_tls
resources_made = refl

key_splits : digests.split_meta_namespace_key (codes "ns/front") ≡ some (codes "ns", codes "front")
unfolding split
key_splits = refl

in_lister : listers.get_ingress (codes "ns") (codes "front") ≡ found front
unfolding ◌==◌
in_lister = refl

has_class : is_envoy_ingress front ≡ true
unfolding is_envoy_ingress get_text lookup ◌==◌
has_class = refl

abbrev value_at : Option Resource → Resource
value_at none = cert
value_at (some r) = r

nothing_stored : lookup (codes "ns/cert") initial.resource_store ≡ none
unfolding lookup initialize_fields
nothing_stored = refl

abbrev first_of : List Resource → Resource
first_of [] = cert
first_of (r ∷ rs) = r

-- The cluster of the service's port, the first of the resources.
abbrev made_first : Resource
made_first = first_of (made (envoy_resources listers digests front))

last_made :
    last_with (envoy_resource_key_func made_first) (made (envoy_resources listers digests front))
    ≡ some made_first
unfolding envoy_resources tolerate get_secrets_for_ingress secret_loop get_node_group_for_ingress
    nodegroup_set split get_text lookup ◌==◌ add put itoa digits_onto get_endpoints_for_ingress
    endpoint_services endpoint_ports get_services_for_ingress select_for_ingress ingress_names
    default_backend_names rules_name paths_name get_clusters_for_ingress cluster_for_port
    host_services host_paths sni_of has_service name_for_port cluster_name validation_part
    upstream_peer upstream_secret get_route_for_ingress rule_virtual_hosts path_routes port_routes
    route_cluster_name route_peer host_secrets get_listeners_for_ingress rule_listeners
    path_listeners listener_tls envoy_resource_key_func https_listeners http_listener
    listener_resource listener_name hashname join health_check_part health_check_policy
last_made = refl

sync_envoy_ingress-IsHeld_example :
    (c' : Controller) × (sync_envoy_ingress listers digests (codes "ns/front") initial
      ≡ returns c' tt)
    × IsHeld (codes "ns/front") c' (envoy_resource_key_func made_first) made_first
sync_envoy_ingress-IsHeld_example =
    sync_envoy_ingress-IsHeld listers digests (codes "ns/front") (codes "ns") (codes "front")
      (envoy_resource_key_func made_first) front (made (envoy_resources listers digests front))
      made_first initial last_made (initialize_fields-IsValid layer).0
      (initialize_fields-IsValid layer).1 key_splits in_lister has_class resources_made

sync_envoy_resource-missing_example :
    (c' : Controller) × (c'' : Controller) × (sync_envoy_resource digests (codes "ns/cert") initial
      ≡ fails c' resource_missing)
    × (sync_envoy_ingress listers digests (codes "ns/front") c' ≡ blocks c'')
sync_envoy_resource-missing_example =
    sync_envoy_resource-missing listers digests (codes "ns/cert") (codes "ns/front") (codes "ns")
      (codes "front") front (made (envoy_resources listers digests front)) initial nothing_stored
      (initialize_fields-IsValid layer).1 key_splits in_lister has_class resources_made

-- The ingress is synchronised, the worker takes the key of its first resource, and the ingress is deleted.
abbrev state_of : Run (Unit {0}) → Controller
state_of (returns c a) = c
state_of (fails c e) = c
state_of (blocks c) = c
state_of Run.panics = initial

abbrev synced : Controller
synced = state_of (sync_envoy_ingress listers digests (codes "ns/front") initial)

abbrev taken : Controller
taken =
    state_of
      (process_next_envoy_resource_work_item digests (envoy_resource_key_func made_first) synced)

abbrev no_ingress : Listers
no_ingress = record listers { get_ingress = λ n m. not_found }

abbrev deleted : Controller
deleted = state_of (sync_envoy_ingress no_ingress digests (codes "ns/front") taken)

Reach-IsValid_example : IsValid deleted × IsFree deleted
unfolding sync_envoy_ingress sync_answer sync_present store_resources retire_loop ensure_names
    set_node_groups insert_loop lock insert_resource create_resource update_resource release_loop
    release_resource delete_ingress_resources process_next_envoy_resource_work_item read_lock
    drop_unreferenced send_copy dispatch_to nodes_to_send initialize_fields names_of remove discard
    envoy_resources tolerate get_secrets_for_ingress secret_loop get_node_group_for_ingress
    nodegroup_set split get_text lookup ◌==◌ add put itoa digits_onto get_endpoints_for_ingress
    endpoint_services endpoint_ports get_services_for_ingress select_for_ingress ingress_names
    default_backend_names rules_name paths_name get_clusters_for_ingress cluster_for_port
    host_services host_paths sni_of has_service name_for_port cluster_name validation_part
    upstream_peer upstream_secret get_route_for_ingress rule_virtual_hosts path_routes port_routes
    route_cluster_name route_peer host_secrets get_listeners_for_ingress rule_listeners
    path_listeners listener_tls envoy_resource_key_func is_envoy_ingress https_listeners
    http_listener listener_resource listener_name hashname join health_check_part
    health_check_policy get_list
Reach-IsValid_example = Reach-IsValid digests layer deleted (
    next
      (next (next here (ingress_synced listers (codes "ns/front") (inl refl))) (
        resource_synced (envoy_resource_key_func made_first)
          (value_at (lookup (envoy_resource_key_func made_first) synced.resource_store)) refl
          (inl refl)))
      (ingress_synced no_ingress (codes "ns/front") (inl refl)))
