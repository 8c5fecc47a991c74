-- ===== src/Controller/Quiet.antt =====
-- envoyingresscontroller.go: what the handlers of the informers' events can change of the controller.
use envoyingresscontroller.Prelude.{◌≡◌, ◌∙◌, List, [], ◌∷◌, Text, Map, arith}
use envoyingresscontroller.Kube
use envoyingresscontroller.Kube.{
  Listers, Ingress, V1beta1Ingress, Node, NodeCondition, Service, Endpoints,
}
use envoyingresscontroller.Matching.{get_ingresses_for_secret}
use envoyingresscontroller.Resource.{Resource}
use envoyingresscontroller.External.{External}
use envoyingresscontroller.Location.{update_edge_node, update_node_group}
use envoyingresscontroller.Message.{insert_operation}
use envoyingresscontroller.Controller.{Controller}
use envoyingresscontroller.Controller.Dispatch.{
  dispatch_resource, dispatch_all, sync_all_resources_to_edge_nodes,
}
use envoyingresscontroller.Controller.Events.{
  Deleted, enqueue, enqueue_all, add_ingress, delete_ingress, update_ingress, note_condition,
  note_conditions, add_node, relabel, update_node, delete_node, add_secret,
}
use envoyingresscontroller.Controller.Invariant.{IsValid, IsFree}

-- Nothing of the stored resources changes.
pub record IsQuiet (c c' : Controller) : Type 0 where
  pub store : c'.resource_store ≡ c.resource_store
  pub names : c'.ingress_to_resource_names ≡ c.ingress_to_resource_names
  pub queue : c'.resource_queue ≡ c.resource_queue
  pub readers : c'.store_readers ≡ c.store_readers
  pub writer : c'.store_writer ≡ c.store_writer

pub IsQuiet-trans : {c c' c'' : Controller} → IsQuiet c c' → IsQuiet c' c'' → IsQuiet c c''
IsQuiet-trans p q = record {
  store = q.store ∙ p.store;
  names = q.names ∙ p.names;
  queue = q.queue ∙ p.queue;
  readers = q.readers ∙ p.readers;
  writer = q.writer ∙ p.writer;
}

pub IsQuiet-IsValid : {c c' : Controller} → IsQuiet c c' → IsValid c → IsValid c'
IsQuiet-IsValid p v = record {
  keyed = rw p.store v.keyed;
  named = rw (p.store, p.names) v.named;
  unique = rw p.names v.unique;
  queued = rw (p.store, p.queue) v.queued;
}

pub IsQuiet-IsFree : {c c' : Controller} → IsQuiet c c' → IsFree c → IsFree c'
IsQuiet-IsFree p f = record {
  no_writer = p.writer ∙ f.no_writer;
  no_reader = p.readers ∙ f.no_reader;
}

dispatch_resource-IsQuiet :
    (d : External) (r : Resource) (opr node : Text) (c : Controller)
    → IsQuiet c (dispatch_resource d r opr node c).0
unfolding dispatch_resource
dispatch_resource-IsQuiet d r opr node c = ground arith

dispatch_all-IsQuiet :
    (d : External) (node : Text) (m : Map Resource) (c : Controller)
    → IsQuiet c (dispatch_all d node m c)
unfolding dispatch_all
dispatch_all-IsQuiet d node [] c = ground arith
dispatch_all-IsQuiet d node ((k, r) ∷ m) c =
    IsQuiet-trans (dispatch_resource-IsQuiet d r insert_operation node c)
      (dispatch_all-IsQuiet d node m (dispatch_resource d r insert_operation node c).0)

sync_all-IsQuiet :
    (d : External) (node : Node) (c : Controller)
    → IsQuiet c (sync_all_resources_to_edge_nodes d node c)
unfolding sync_all_resources_to_edge_nodes
sync_all-IsQuiet d node c = ground (arith, dispatch_all-IsQuiet d node.name c.resource_store c)

note_condition-IsQuiet :
    (d : External) (node : Node) (nsc : NodeCondition) (c : Controller)
    → IsQuiet c (note_condition d node nsc c)
unfolding note_condition
note_condition-IsQuiet d node nsc c =
    ground (arith, sync_all-IsQuiet d node (record c { lc = update_edge_node c.lc node }))

note_conditions-IsQuiet :
    (d : External) (node : Node) (cs : List NodeCondition) (c : Controller)
    → IsQuiet c (note_conditions d node cs c)
unfolding note_conditions
note_conditions-IsQuiet d node [] c = ground arith
note_conditions-IsQuiet d node (nsc ∷ rest) c =
    IsQuiet-trans (note_condition-IsQuiet d node nsc c)
      (note_conditions-IsQuiet d node rest (note_condition d node nsc c))

pub enqueue-IsQuiet : (d : External) (i : Ingress) (c : Controller) → IsQuiet c (enqueue d i c)
unfolding enqueue
enqueue-IsQuiet d i c = ground arith

pub enqueue_all-IsQuiet :
    (d : External) (is : List Ingress) (c : Controller) → IsQuiet c (enqueue_all d is c)
unfolding enqueue_all
enqueue_all-IsQuiet d [] c = ground arith
enqueue_all-IsQuiet d (i ∷ is) c =
    IsQuiet-trans (enqueue-IsQuiet d i c) (enqueue_all-IsQuiet d is (enqueue d i c))

pub add_ingress-IsQuiet :
    (d : External) (i : Ingress) (c : Controller) → IsQuiet c (add_ingress d i c)
unfolding add_ingress
add_ingress-IsQuiet d i c = ground arith

pub update_ingress-IsQuiet :
    (d : External) (old cur : Ingress) (c : Controller) → IsQuiet c (update_ingress d old cur c)
unfolding update_ingress
update_ingress-IsQuiet d old cur c = ground arith

pub delete_ingress-IsQuiet :
    (d : External) (i : Deleted Ingress) (c : Controller) → IsQuiet c (delete_ingress d i c)
unfolding delete_ingress
delete_ingress-IsQuiet d i c = ground arith

pub add_node-IsQuiet : (d : External) (n : Node) (c : Controller) → IsQuiet c (add_node d n c)
unfolding add_node
add_node-IsQuiet d n c =
    let q = note_conditions-IsQuiet d n n.conditions (record c { lc = update_node_group c.lc n }) in
    record {
      store = q.store;
      names = q.names;
      queue = q.queue;
      readers = q.readers;
      writer = q.writer;
    }

relabel-IsQuiet : (old cur : Node) (c : Controller) → IsQuiet c (relabel old cur c)
unfolding relabel
relabel-IsQuiet old cur c = ground arith

pub update_node-IsQuiet :
    (d : External) (old cur : Node) (c : Controller) → IsQuiet c (update_node d old cur c)
unfolding update_node
update_node-IsQuiet d old cur c =
    IsQuiet-trans (relabel-IsQuiet old cur c)
      (note_conditions-IsQuiet d cur cur.conditions (relabel old cur c))

pub delete_node-IsQuiet : (n : Deleted Node) (c : Controller) → IsQuiet c (delete_node n c)
unfolding delete_node
delete_node-IsQuiet n c = ground arith

pub add_secret-IsQuiet :
    (ls : Listers) (d : External) (s : Kube.Secret) (c : Controller)
    → IsQuiet c (add_secret ls d s c)
unfolding add_secret
add_secret-IsQuiet ls d s c = enqueue_all-IsQuiet d (get_ingresses_for_secret ls s) c
