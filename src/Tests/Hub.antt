-- ===== src/Tests/Hub.antt =====
-- Messages, sends and nodes that exercise the theorems on CloudHub.
use envoyingresscontroller.Prelude.{
  ℕ, Bool, true, false, ◌≡◌, refl, none, some, List, [], ◌∷◌, ◌++◌, Text, codes, lookup, replicate,
  ok, arith, ◌==◌, add, discard, split, join, put,
}
use envoyingresscontroller.Constants.{envoy_ingress_controller_name}
use envoyingresscontroller.Message.{
  build_resource, insert_operation, get_resource_type, get_namespace, get_resource_name,
}
use envoyingresscontroller.Controller.Dispatch.{dispatch_message, resource_kind}
use envoyingresscontroller.CloudHub.{
  HubMessage, or_empty, build_object_sync_name, get_node_name, get_object_uid,
}
use envoyingresscontroller.CloudHub.Queues.{
  ChannelMessageQueue, QueueCall, add_key, empty_queues, ObjectSyncs, dispatch_messages, dispatch,
  forget, done, get_msg_key,
}
use envoyingresscontroller.CloudHub.Sends.{
  Answers, found, Sender, Link, acked, ticked, settled, send_msg, get_sync, update_status,
  list_write_round, goes_on, trim_copy,
}
use envoyingresscontroller.CloudHub.Nodes.{
  NodeEvent, connected, registered, unregistered, timed_out, node_disconnect, handle_events,
}
use envoyingresscontroller.CloudHub.Fresh.{held, Advances, dispatch_messages-Advances}
use envoyingresscontroller.CloudHub.Acks.{IsUp, send_msg-acked}
use envoyingresscontroller.CloudHub.SyncNames.{build_object_sync_name-parts}
use envoyingresscontroller.CloudHub.Envoy.{dispatch_message-delivered}
use envoyingresscontroller.CloudHub.Registry.{IsRegistry, new_handle, handle_events-IsRegistry}
use envoyingresscontroller.Tests.{digests, cert}

abbrev pod : Text → Text → HubMessage
pod version operation = record {
  id = codes "1";
  parent_id = [];
  message = record {
    resource_version = version;
    source = codes "edgecontroller";
    group = codes "resource";
    resource = codes "node/edge1/ns/pod/web";
    operation = operation;
    content = [];
  };
  metadata = some (record { uid = codes "u"; deletion_timestamp = none });
}

abbrev no_syncs : ObjectSyncs
no_syncs namespace name = none

abbrev pod_key : Text
pod_key = codes "pod/ns/web"

abbrev edge : Text
edge = codes "edge1"

abbrev update_operation : Text
update_operation = codes "update"

-- A newer version, an older one that is dropped, and a deletion.
abbrev arrivals : List (ObjectSyncs × HubMessage)
arrivals =
    (no_syncs, pod (codes "10") update_operation)
    ∷ (no_syncs, pod (codes "9") update_operation)
    ∷ (no_syncs, pod [] (codes "delete"))
    ∷ []

abbrev with_version : Text → List QueueCall → ChannelMessageQueue
with_version version calls = record empty_queues {
  queue_pool = (edge, calls) ∷ [];
  store_pool = (edge, (pod_key, pod version update_operation) ∷ []) ∷ [];
}

abbrev ending : ChannelMessageQueue
ending = record empty_queues {
  queue_pool = (edge, add_key pod_key ∷ add_key pod_key ∷ []) ∷ [];
  store_pool = (edge, (pod_key, pod [] (codes "delete")) ∷ []) ∷ [];
}

abbrev beginning : ChannelMessageQueue
beginning = with_version (codes "8") []

arrivals_end : dispatch_messages arrivals beginning ≡ ok ending
unfolding dispatch_messages split ◌==◌ get_resource_type lookup join get_namespace get_resource_name
    put
arrivals_end = refl

dispatch_messages-Advances_example :
    Advances (held edge pod_key beginning) (held edge pod_key ending)
dispatch_messages-Advances_example =
    dispatch_messages-Advances arrivals beginning ending arrivals_end edge pod_key

build_object_sync_name-parts_example :
    (get_node_name (build_object_sync_name (codes "edge.one") (codes "7f-3")) ≡ codes "edge.one")
    × (get_object_uid (build_object_sync_name (codes "edge.one") (codes "7f-3")) ≡ codes "7f-3")
build_object_sync_name-parts_example =
    build_object_sync_name-parts (codes "edge.one") (codes "7f-3") (omega arith)

abbrev answers : Answers
answers = record { first_get = found; created = true; second_get = true }

abbrev up : ℕ → Link
up n = record { locked = true; writes = true }

up-IsUp : IsUp up
up-IsUp n = (refl, refl)

abbrev sender : Sender
sender = record {
  store = (pod_key, pod (codes "10") update_operation) ∷ [];
  message_acks = [];
  written = [];
  calls = [];
}

abbrev sample : HubMessage
sample = pod (codes "10") update_operation

sample_key : get_msg_key sample ≡ ok pod_key
unfolding get_msg_key split ◌==◌ get_resource_type join get_namespace get_resource_name
sample_key = refl

send_msg-acked_example :
    send_msg answers edge sample sample up (replicate 2 ticked ++ acked ∷ []) sender
    ≡ settled
        (record {
          written = replicate 3 sample;
          message_acks = discard sample.id (add sample.id []);
          store = sender.store;
          calls =
              get_sync
                (or_empty (get_namespace sample.message))
                (build_object_sync_name edge (codes "u"))
              ∷ update_status
                  (or_empty (get_namespace sample.message))
                  (build_object_sync_name edge (codes "u"))
                  (codes "10")
              ∷ [];
        })
        none
unfolding ◌==◌
send_msg-acked_example =
    send_msg-acked answers edge pod_key sample sample
      (record { uid = codes "u"; deletion_timestamp = none }) up 2 [] sender up-IsUp (omega arith)
      refl refl sample_key refl

abbrev hub_cert : HubMessage
hub_cert = record {
  id = codes "2";
  parent_id = [];
  message = record {
    resource_version = codes "1";
    source = envoy_ingress_controller_name;
    group = codes "envoy";
    resource = codes "node/edge1/ns/Secret/envoycert";
    operation = insert_operation;
    content = codes "cert";
  };
  metadata = none;
}

cert_made : dispatch_message digests cert insert_operation edge ≡ ok hub_cert.message
unfolding dispatch_message build_resource resource_kind
cert_made = refl

abbrev cert_sender : Sender
cert_sender = record sender { store = (codes "2", hub_cert) ∷ [] }

cert_stored : cert_sender.store ≡ put (codes "2") hub_cert []
unfolding put
cert_stored = refl

dispatch_message-delivered_example :
    ((q' : ChannelMessageQueue) × (dispatch no_syncs hub_cert empty_queues ≡ ok q')
      × (lookup edge q'.list_queue_pool ≡ some (add_key (codes "2") ∷ []))
      × (lookup edge q'.list_store_pool ≡ some cert_sender.store)
      × (q'.queue_pool ≡ [])
      × (q'.store_pool ≡ []))
    × ((s' : Sender) × (list_write_round (codes "2") true (up 0) [] [] cert_sender
          ≡ goes_on (forget (codes "2") ∷ done (codes "2") ∷ []) s')
        × (s'.written ≡ trim_copy hub_cert ∷ [])
        × (lookup (codes "2") s'.store ≡ none))
unfolding lookup
dispatch_message-delivered_example =
    dispatch_message-delivered digests cert insert_operation edge hub_cert no_syncs empty_queues
      (up 0) [] [] cert_sender (omega arith, (omega arith, tt)) cert_made refl refl cert_stored

abbrev no_volume : Text → Bool
no_volume resource = false

abbrev life : List NodeEvent
life =
    connected edge (codes "first")
    ∷ registered (codes "1") [] edge
    ∷ connected edge (codes "second")
    ∷ timed_out edge
    ∷ unregistered (codes "2") [] node_disconnect edge
    ∷ []

handle_events-IsRegistry_example : IsRegistry (handle_events no_volume life (new_handle 10))
handle_events-IsRegistry_example = handle_events-IsRegistry no_volume 10 life
