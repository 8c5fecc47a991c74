-- ===== src/Controller/Dispatch.antt =====
-- envoyingresscontroller.go: `dispatchResource`, `syncEnvoyResource` and
-- `syncAllResourcesToEdgeNodes`.
use envoyingresscontroller.Prelude.{
  Option, none, some, List, [], ◌∷◌, ◌++◌, Text, TextSet, Map, codes, lookup, add, remove, is_nil,
  if◌then◌else◌, ◌==◌, Error, Outcome, ok, err, or_err, unknown_spec, marshal_failed, ◌>>=◌ as ◌|>◌,
  resource_missing,
}
use envoyingresscontroller.Constants.{
  envoy_ingress_controller_name, group_resource, condition_true, node_group_label,
}
use envoyingresscontroller.Kube.{Node}
use envoyingresscontroller.Location.{LocationCache, get_node_status, get_list}
use envoyingresscontroller.Message.{
  Message, build_resource, send, insert_operation, delete_operation,
}
use envoyingresscontroller.Resource
use envoyingresscontroller.Resource.{
  Resource, Spec, secret_kind, endpoint_kind, cluster_kind, route_kind, listener_kind,
}
use envoyingresscontroller.External.{External}
use envoyingresscontroller.Controller.{
  Controller, Run, returns, fails, blocks, panics, take_key, Action, ◌>>=◌, ◌>>◌, fail, gets,
  modify, read_lock, read_unlock,
}

-- The type switch of `dispatchResource`.
unfoldable pub resource_kind : Spec → Option Text
resource_kind (Resource.secret s) = some secret_kind
resource_kind (Resource.endpoint a) = some endpoint_kind
resource_kind (Resource.cluster c) = some cluster_kind
resource_kind (Resource.route r) = some route_kind
resource_kind (Resource.listener l) = some listener_kind
resource_kind Resource.other = none

-- The message that `dispatchResource` sends, or the error that it returns.
unfoldable pub dispatch_message : External → Resource → Text → Text → Outcome Message
dispatch_message d r opr node = or_err (resource_kind r.spec) unknown_spec |> λ kind.
    build_resource node r.namespace kind (codes "envoy" ++ r.name) |> λ resource.
    or_err (d.marshal r.spec) marshal_failed |> λ bytes. ok (record {
      resource_version = r.resource_version;
      source = envoy_ingress_controller_name;
      group = group_resource;
      resource = resource;
      operation = opr;
      content = d.encode_to_string bytes;
    })

-- dispatchResource, with the error that it returns. `Send` of the message layer never fails.
unfoldable pub dispatch_resource :
    External → Resource → Text → Text → Controller → Controller × Option Error
dispatch_resource d r opr node c = elim (dispatch_message d r opr node) [
  | ok msg ↦ (record c { sent = c.sent ++ send c.message_layer msg ∷ [] }, none)
  | err e ↦ (c, some e)
  | Outcome.panics ↦ (c, none)
]

-- One node of a group: it counts if its recorded status is True.
unfoldable pub ready_node : LocationCache → Text → TextSet → TextSet
ready_node lc n found = elim (get_node_status lc n) [
  | none ↦ found
  | some status ↦ if status == condition_true then add n found else found
]

-- The nodes of one group, added to those found before.
unfoldable pub ready_nodes : LocationCache → List Text → TextSet → TextSet
unfolding ready_node
ready_nodes lc [] found = found
ready_nodes lc (n ∷ ns) found = ready_nodes lc ns (ready_node lc n found)

-- nodesToSend
unfoldable pub nodes_to_send : LocationCache → List Text → TextSet → TextSet
unfolding ready_nodes
nodes_to_send lc [] found = found
nodes_to_send lc (g ∷ gs) found =
    nodes_to_send lc gs (ready_nodes lc (get_list g lc.group2node) found)

-- The loop that dispatches; the error of the last node that failed is returned.
unfoldable pub dispatch_to :
    External → Resource → Text → List Text → Option Error → Controller → Controller × Option Error
dispatch_to d r opr [] e c = (c, e)
dispatch_to d r opr (n ∷ ns) e c =
    let (c', failed) = dispatch_resource d r opr n c in
    dispatch_to d r opr ns (elim failed [ none ↦ e | some e' ↦ some e' ]) c'

abbrev pub result_of : Controller × Option Error → Run (Unit {0})
result_of (c, none) = returns c tt
result_of (c, some e) = fails c e

abbrev pub operation_for : Resource → Text
operation_for r = if is_nil r.ingress_ref then delete_operation else insert_operation

-- A resource that no ingress refers to leaves the store, under the read lock.
unfoldable pub drop_unreferenced : Text → Resource → Controller → Controller
drop_unreferenced name r c =
    if is_nil r.ingress_ref then record c { resource_store = remove name c.resource_store } else c

unfoldable pub send_copy : External → Resource → Action (Unit {0})
send_copy d r c =
    result_of (dispatch_to d r (operation_for r) (nodes_to_send c.lc r.node_group []) none c)

-- syncEnvoyResource. The path for a missing resource returns with the read lock held.
unfoldable pub sync_envoy_resource : External → Text → Action (Unit {0})
unfolding read_lock
sync_envoy_resource d name = do
  read_lock
  found ← gets (λ c. lookup name c.resource_store)
  elim found [
    | none ↦ fail resource_missing
    | some r ↦ (do modify (drop_unreferenced name r); read_unlock; send_copy d r)
  ]

-- processNextEnvoyResourceWorkItem for the key that Get hands out: a key whose call fails comes back.
unfoldable pub process_next_envoy_resource_work_item : External → Text → Action (Unit {0})
unfolding sync_envoy_resource
process_next_envoy_resource_work_item d name c =
    elim (sync_envoy_resource d name (take_key name c)) [
      | returns c' a ↦ returns c' tt
      | fails c' e ↦ returns (record c' { resource_queue = c'.resource_queue ++ name ∷ [] }) tt
      | blocks c' ↦ blocks c'
      | panics ↦ panics
    ]

unfoldable pub dispatch_all : External → Text → Map Resource → Controller → Controller
dispatch_all d node [] c = c
dispatch_all d node ((k, r) ∷ m) c =
    dispatch_all d node m (dispatch_resource d r insert_operation node c).0

-- syncAllResourcesToEdgeNodes: every stored resource, to a node with the label. Errors are dropped.
unfoldable pub sync_all_resources_to_edge_nodes : External → Node → Controller → Controller
sync_all_resources_to_edge_nodes d node c = elim (lookup node_group_label node.labels) [
  | none ↦ c
  | some _ ↦ dispatch_all d node.name c.resource_store c
]
