-- ===== src/Controller/Events.antt =====
-- envoyingresscontroller.go: the handlers of the informers' events, `enqueue`, and what a worker
-- tells its queue. `reflect.DeepEqual` is equality of the modelled fields.
use envoyingresscontroller.Prelude.{
  Bool, true, false, not, ◌&&◌, ◌||◌, Option, none, some, List, [], ◌∷◌, ◌++◌, Text, TextSet, Map,
  lookup, put, add, split, get_text, is_nil, eqb, if◌then◌else◌, ◌==◌,
}
use envoyingresscontroller.Constants.{
  envoy_ingress_nodegroup_annotation, semicolon, node_group_label, ready_condition, condition_true,
}
use envoyingresscontroller.Kube
use envoyingresscontroller.Kube.{
  Listers, Ingress, V1beta1Ingress, Node, NodeCondition, Service, ServicePort, Endpoints,
  EndpointSubset, found?,
}
use envoyingresscontroller.Convert.{to_v1_ingress}
use envoyingresscontroller.Location.{
  get_node_status, update_node_group, delete_node_group, update_edge_node, delete_edge_node,
}
use envoyingresscontroller.Matching.{
  is_envoy_ingress, get_ingresses_for_service, get_ingresses_for_secret,
}
use envoyingresscontroller.External.{External}
use envoyingresscontroller.Controller.{
  Controller, Run, returns, fails, blocks, panics, Action, ◌>>=◌, ◌>>◌, pure, modify, lift,
  names_of,
}
use envoyingresscontroller.Controller.Dispatch.{sync_all_resources_to_edge_nodes}

-- What a deletion hands over: the object, a cache.DeletedFinalStateUnknown that holds one or
-- something else, or some other value.
pub data Deleted (A : Type 0) : Type 0 where
  object : A → Deleted A
  tombstone : Option A → Deleted A
  unexpected : Deleted A

unfoldable pub deleted_object : {A : Type 0} → Deleted A → Option A
deleted_object (object a) = some a
deleted_object (tombstone a) = a
deleted_object unexpected = none

abbrev pub add_to_queue : Text → Controller → Controller
add_to_queue key c = record c { queue = c.queue ++ key ∷ [] }

-- enqueue
unfoldable pub enqueue : External → Ingress → Controller → Controller
enqueue d ingress c = if is_envoy_ingress ingress then add_to_queue (d.key_func ingress) c else c

unfoldable pub enqueue_all : External → List Ingress → Controller → Controller
unfolding enqueue
enqueue_all d [] c = c
enqueue_all d (i ∷ is) c = enqueue_all d is (enqueue d i c)

-- The loop over the parts of the annotation in `addIngress` and `initiateEnvoyResources`.
unfoldable pub note_groups : Text → List Text → Map TextSet → Map TextSet
note_groups key [] m = m
note_groups key (g ∷ gs) m =
    note_groups key gs (if is_nil g then m else put key (add g (names_of key m)) m)

unfoldable pub note_node_groups : Text → Ingress → Controller → Controller
unfolding note_groups
note_node_groups key ingress c = record c {
  ingress_node_groups =
      note_groups key
        (split semicolon (get_text envoy_ingress_nodegroup_annotation ingress.annotations))
        c.ingress_node_groups;
}

-- addIngress
unfoldable pub add_ingress : External → Ingress → Controller → Controller
unfolding note_node_groups enqueue
add_ingress d ingress c =
    if is_envoy_ingress ingress
    then enqueue d ingress (note_node_groups (d.key_func ingress) ingress c)
    else c

-- deleteIngress: the key is queued whatever the class of the ingress.
unfoldable pub delete_ingress : External → Deleted Ingress → Controller → Controller
delete_ingress d deleted c = elim (deleted_object deleted) [
  | none ↦ c
  | some ingress ↦ add_to_queue (d.key_func ingress) c
]

-- updateIngress
unfoldable pub update_ingress : External → Ingress → Ingress → Controller → Controller
unfolding delete_ingress enqueue
update_ingress d old cur c =
    let c' =
      if not (cur.uid == old.uid) && is_envoy_ingress old
      then delete_ingress d (tombstone (some old)) c
      else c in
    if is_envoy_ingress cur then enqueue d cur c' else c'

-- addV1beta1Ingress
unfoldable pub add_v1beta1_ingress : External → V1beta1Ingress → Controller → Controller
unfolding add_ingress
add_v1beta1_ingress d beta = add_ingress d (to_v1_ingress beta)

-- updateV1beta1Ingress, which hands the two ingresses to `updateIngress` the wrong way round.
unfoldable pub update_v1beta1_ingress :
    External → V1beta1Ingress → V1beta1Ingress → Controller → Controller
unfolding update_ingress
update_v1beta1_ingress d old cur = update_ingress d (to_v1_ingress cur) (to_v1_ingress old)

-- deleteV1beta1Ingress asserts that it is handed an ingress: a tombstone is a panic.
unfoldable pub delete_v1beta1_ingress : External → Deleted V1beta1Ingress → Action (Unit {0})
unfolding delete_ingress
delete_v1beta1_ingress d (object beta) c =
    returns (delete_ingress d (object (to_v1_ingress beta)) c) tt
delete_v1beta1_ingress d (tombstone o) c = panics
delete_v1beta1_ingress d unexpected c = panics

-- One round of the loop over the conditions in `addNode` and `updateNode`.
unfoldable pub note_condition : External → Node → NodeCondition → Controller → Controller
note_condition d node nsc c =
    let updated = record c { lc = update_edge_node c.lc node } in
    let before : Text = elim (get_node_status c.lc node.name) [ none ↦ [] | some s ↦ s ] in
    if nsc.kind == ready_condition
    then if not (nsc.status == condition_true) || before == nsc.status
      then updated
      else sync_all_resources_to_edge_nodes d node updated
    else c

unfoldable pub note_conditions : External → Node → List NodeCondition → Controller → Controller
unfolding note_condition
note_conditions d node [] c = c
note_conditions d node (nsc ∷ rest) c = note_conditions d node rest (note_condition d node nsc c)

-- addNode
unfoldable pub add_node : External → Node → Controller → Controller
unfolding note_conditions
add_node d node c =
    note_conditions d node node.conditions (record c { lc = update_node_group c.lc node })

-- The first part of `updateNode`: a changed label moves the node to its new groups.
unfoldable pub relabel : Node → Node → Controller → Controller
relabel old cur c =
    if get_text node_group_label cur.labels == get_text node_group_label old.labels
    then c
    else record c { lc = update_node_group (delete_node_group c.lc old) cur }

-- updateNode
unfoldable pub update_node : External → Node → Node → Controller → Controller
unfolding note_conditions relabel
update_node d old cur c = note_conditions d cur cur.conditions (relabel old cur c)

-- deleteNode
unfoldable pub delete_node : Deleted Node → Controller → Controller
delete_node deleted c = elim (deleted_object deleted) [
  | none ↦ c
  | some node ↦ record c { lc = delete_edge_node (delete_node_group c.lc node) node }
]

-- addService, and the body that deleteService has in common with it
unfoldable pub add_service : Listers → External → Service → Action (Unit {0})
unfolding enqueue_all
add_service ls d service = do
  ingresses ← lift (get_ingresses_for_service ls service)
  modify (enqueue_all d ingresses)

-- deleteService
unfoldable pub delete_service : Listers → External → Deleted Service → Action (Unit {0})
unfolding add_service
delete_service ls d deleted = elim (deleted_object deleted) [
  | none ↦ pure tt
  | some service ↦ add_service ls d service
]

-- Every entry of the first map stands in the second.
covered : Map Text → Map Text → Bool
covered [] n = true
covered ((k, v) ∷ m) n = elim (lookup k n) [ none ↦ false | some w ↦ v == w ] && covered m n

unfoldable pub same_map : Map Text → Map Text → Bool
unfolding covered
same_map m n = covered m n && covered n m

-- updateService: only a changed selector counts.
unfoldable pub update_service : Listers → External → Service → Service → Action (Unit {0})
unfolding delete_service
update_service ls d old cur =
    if same_map cur.selector old.selector
    then pure tt
    else do delete_service ls d (object old); add_service ls d cur

-- addEndpoint
unfoldable pub add_endpoint : Listers → External → Endpoints → Action (Unit {0})
unfolding add_service
add_endpoint ls d endpoint = elim (found? (ls.get_service endpoint.namespace endpoint.name)) [
  | none ↦ pure tt
  | some service ↦ add_service ls d service
]

same_list : {A : Type 0} → (A → A → Bool) → List A → List A → Bool
same_list eq [] [] = true
same_list eq [] (y ∷ ys) = false
same_list eq (x ∷ xs) [] = false
same_list eq (x ∷ xs) (y ∷ ys) = eq x y && same_list eq xs ys

same_port : ServicePort → ServicePort → Bool
same_port p q = p.name == q.name && p.protocol == q.protocol && eqb p.port q.port

same_subset : EndpointSubset → EndpointSubset → Bool
unfolding same_list same_port
same_subset s t =
    same_list (λ a b. a == b) s.addresses t.addresses && same_list same_port s.ports t.ports

unfoldable pub same_subsets : List EndpointSubset → List EndpointSubset → Bool
unfolding same_list same_subset
same_subsets = same_list same_subset

-- updateEndpoint
unfoldable pub update_endpoint : Listers → External → Endpoints → Endpoints → Action (Unit {0})
unfolding delete_service
update_endpoint ls d old cur =
    if same_subsets cur.subsets old.subsets
    then pure tt
    else elim (found? (ls.get_service old.namespace old.name)) [
      | none ↦ pure tt
      | some service ↦ (do delete_service ls d (object service); add_service ls d service)
    ]

-- deleteEndpoint
unfoldable pub delete_endpoint : Listers → External → Deleted Endpoints → Action (Unit {0})
unfolding delete_service
delete_endpoint ls d deleted = elim (deleted_object deleted) [
  | none ↦ pure tt
  | some endpoint ↦ elim (found? (ls.get_service endpoint.namespace endpoint.name)) [
    | none ↦ pure tt
    | some service ↦ delete_service ls d (object service)
  ]
]

-- addSecret
unfoldable pub add_secret : Listers → External → Kube.Secret → Controller → Controller
unfolding enqueue_all
add_secret ls d secret = enqueue_all d (get_ingresses_for_secret ls secret)

-- deleteSecret
unfoldable pub delete_secret : Listers → External → Deleted Kube.Secret → Controller → Controller
unfolding add_secret
delete_secret ls d deleted c = elim (deleted_object deleted) [
  | none ↦ c
  | some secret ↦ add_secret ls d secret c
]

-- updateSecret
unfoldable pub update_secret :
    Listers → External → Kube.Secret → Kube.Secret → Controller → Controller
unfolding delete_secret
update_secret ls d old cur c =
    if old.kind == cur.kind
      && same_map old.content cur.content
      && same_map old.string_content cur.string_content
    then c
    else add_secret ls d cur (delete_secret ls d (object old) c)

-- The calls that a worker makes on its queue.
pub data QueueCall : Type 0 where
  forget done add_rate_limited : Text → QueueCall

-- processNextIngressWorkItem and processNextEnvoyResourceWorkItem after `Get`: a key is forgotten
-- when its handler succeeds, and comes back after a delay when it fails. A handler that waits for a
-- lock or panics comes to no call here.
unfoldable pub work_item : Text → Run (Unit {0}) → List QueueCall
work_item key (returns c a) = forget key ∷ done key ∷ []
work_item key (fails c e) = add_rate_limited key ∷ done key ∷ []
work_item key (blocks c) = []
work_item key panics = []
