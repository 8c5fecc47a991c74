-- ===== src/Tests/Calls.antt =====
-- The controller's calls, from its initial state and from one with a stored secret.
use envoyingresscontroller.Prelude.{
  false, true, false, ◌≡◌, refl, some, none, [], ◌∷◌, ◌++◌, map, Text, codes, lookup, put, contains,
  ok, ◌==◌, All, add, split, keep,
}
use envoyingresscontroller.Constants.{envoy_ingress_controller_name}
use envoyingresscontroller.Kube.{Endpoints, found}
use envoyingresscontroller.Matching.Sound.{reaches_service}
use envoyingresscontroller.Location.{
  update_node_group, update_edge_node, get_list, get_node_status, ready_status, groups_of,
  join_groups, join_group, reset_groups,
}
use envoyingresscontroller.Message.{Message, send, insert_operation, build_resource}
use envoyingresscontroller.Resource.{Resource, envoy_resource_key_func}
use envoyingresscontroller.Controller.{Controller, initialize_fields, returns, names_of}
use envoyingresscontroller.Controller.Dispatch.{
  sync_envoy_resource, process_next_envoy_resource_work_item, nodes_to_send, ready_nodes,
  ready_node, resource_kind, dispatch_message, operation_for,
}
use envoyingresscontroller.Controller.Sync.{
  sync_envoy_ingress, create_resource, insert_resource, delete_ingress_resources,
}
use envoyingresscontroller.Controller.Events.{object}
use envoyingresscontroller.Controller.Invariant.{IsValid, IsFree}
use envoyingresscontroller.Controller.Inserts.{create_resource-IsValid}
use envoyingresscontroller.Controller.Safety.{Settles, sync_envoy_ingress-Settles}
use envoyingresscontroller.Controller.Sending.{process_next_envoy_resource_work_item-ends}
use envoyingresscontroller.Controller.Initiate.{start_up}
use envoyingresscontroller.Controller.Startup.{start_up-Settles}
use envoyingresscontroller.Controller.Handlers.{
  handle, service_added, service_deleted, endpoint_added, endpoint_deleted,
}
use envoyingresscontroller.Controller.Enqueued.{handle-queued}
use envoyingresscontroller.Controller.Reach.{initialize_fields-IsValid}
use envoyingresscontroller.Controller.Leak.{shared_resource_leaks, delete_ingress_resources-unkept}
use envoyingresscontroller.Controller.Recipients.{sync_envoy_resource-sent}
use envoyingresscontroller.Tests.{digests, layer, initial, listers, front, edge_1, cert, shop}
use envoyingresscontroller.Tests.Translated.{front-IsComplete, merged}

sync_envoy_ingress-Settles_example :
    Settles (sync_envoy_ingress listers digests (codes "ns/front") initial)
sync_envoy_ingress-Settles_example =
    sync_envoy_ingress-Settles listers digests (codes "ns/front") initial
      (initialize_fields-IsValid layer).0 (initialize_fields-IsValid layer).1

start_up-Settles_example : Settles (start_up (λ s t. false) listers digests initial)
start_up-Settles_example =
    start_up-Settles (λ s t. false) listers digests initial (initialize_fields-IsValid layer)

abbrev shop_endpoints : Endpoints
shop_endpoints = record { meta = shop.meta; subsets = [] }

shop_listed : listers.get_service (codes "ns") (codes "shop") ≡ found shop
unfolding ◌==◌
shop_listed = refl

handle-queued_example :
    (c' : Controller) × (c' ≡ record initial {
      queue = initial.queue ++ map digests.key_func (keep (reaches_service shop) (front ∷ []));
    })
    × (handle listers digests (service_added shop) initial ≡ returns c' tt)
    × (handle listers digests (service_deleted (object shop)) initial ≡ returns c' tt)
    × (handle listers digests (endpoint_added shop_endpoints) initial ≡ returns c' tt)
    × (handle listers digests (endpoint_deleted (object shop_endpoints)) initial ≡ returns c' tt)
handle-queued_example =
    handle-queued listers digests shop shop_endpoints (front ∷ []) initial refl merged
      (front-IsComplete, tt) shop_listed

-- The controller with the secret in its store, and an edge node of the secret's group.
abbrev located : Controller
located = record initial { lc = update_node_group (update_edge_node initial.lc edge_1) edge_1 }

abbrev stored : Controller
stored = create_resource (codes "ns/front") cert located

located-IsValid : IsValid located
unfolding initialize_fields
located-IsValid =
    let v = (initialize_fields-IsValid layer).0 in
    record { keyed = v.keyed; named = v.named; unique = v.unique; queued = v.queued }

no_cert : lookup (envoy_resource_key_func cert) located.resource_store ≡ none
unfolding lookup initialize_fields
no_cert = refl

stored-IsValid : IsValid stored
stored-IsValid = create_resource-IsValid (codes "ns/front") cert located located-IsValid no_cert

stored-IsFree : IsFree stored
unfolding create_resource initialize_fields
stored-IsFree = record { no_writer = refl; no_reader = refl }

has_cert : lookup (codes "ns/cert") stored.resource_store ≡ some cert
unfolding create_resource lookup initialize_fields put ◌==◌ envoy_resource_key_func add
has_cert = refl

process_next_envoy_resource_work_item-ends_example :
    (c' : Controller) × (process_next_envoy_resource_work_item digests (codes "ns/cert") stored
      ≡ returns c' tt)
    × IsValid c'
    × IsFree c'
    × (lookup (codes "ns/cert") c'.resource_store ≡ some cert)
process_next_envoy_resource_work_item-ends_example =
    process_next_envoy_resource_work_item-ends digests (codes "ns/cert") cert stored has_cert
      stored-IsValid stored-IsFree

abbrev sent_to : Text → Message
sent_to n = record {
  resource_version = codes "1";
  source = envoy_ingress_controller_name;
  group = codes "envoy";
  resource = codes "node/" ++ n ++ codes "/ns/Secret/envoycert";
  operation = insert_operation;
  content = codes "cert";
}

recipients : nodes_to_send stored.lc cert.node_group [] ≡ codes "edge1" ∷ []
unfolding update_edge_node nodes_to_send get_list lookup create_resource update_node_group
    ready_status ◌==◌ groups_of join_groups split join_group put reset_groups initialize_fields
    get_node_status ready_node ready_nodes add
recipients = refl

deliverable :
    All
      (λ n. dispatch_message digests cert (operation_for cert) n ≡ ok (sent_to n))
      (nodes_to_send stored.lc cert.node_group [])
unfolding dispatch_message build_resource resource_kind
deliverable = rw recipients (refl, tt)

sync_envoy_resource-sent_example :
    (c' : Controller) × (sync_envoy_resource digests (codes "ns/cert") stored ≡ returns c' tt)
    × (c'.sent
        ≡ stored.sent
          ++ map
              (λ n. send stored.message_layer (sent_to n))
              (nodes_to_send stored.lc cert.node_group []))
    × (lookup (codes "ns/cert") c'.resource_store ≡ some cert)
sync_envoy_resource-sent_example =
    sync_envoy_resource-sent digests (codes "ns/cert") cert stored sent_to has_cert stored-IsFree
      deliverable

unkept :
    contains
      (envoy_resource_key_func cert)
      (names_of (codes "ns/other") stored.ingress_to_resource_names)
    ≡ false
unfolding create_resource contains names_of lookup put initialize_fields ◌==◌
unkept = refl

has_cert_key : lookup (envoy_resource_key_func cert) stored.resource_store ≡ some cert
unfolding create_resource lookup put initialize_fields ◌==◌ envoy_resource_key_func add
has_cert_key = refl

-- A second ingress whose translation gives the same secret.
shared_resource_leaks_example :
    (c' : Controller) × (delete_ingress_resources
        (codes "ns/other")
        (insert_resource (codes "ns/other") cert stored)
      ≡ returns c' tt)
    × ((r' : Resource) × (lookup (envoy_resource_key_func cert) c'.resource_store ≡ some r')
        × (contains (codes "ns/other") r'.ingress_ref ≡ true))
shared_resource_leaks_example =
    shared_resource_leaks (codes "ns/other") cert cert stored stored-IsValid stored-IsFree
      has_cert_key unkept

delete_ingress_resources-unkept_example :
    (c' : Controller) × (delete_ingress_resources (codes "ns/other") stored ≡ returns c' tt)
    × (lookup (codes "ns/cert") c'.resource_store ≡ lookup (codes "ns/cert") stored.resource_store)
unfolding envoy_resource_key_func
delete_ingress_resources-unkept_example =
    delete_ingress_resources-unkept (codes "ns/other") (codes "ns/cert") stored stored-IsValid
      stored-IsFree unkept
