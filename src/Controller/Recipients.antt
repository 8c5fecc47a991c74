-- ===== src/Controller/Recipients.antt =====
-- envoyingresscontroller.go: who is sent a resource by `syncEnvoyResource`, and what.
use envoyingresscontroller.Prelude.{
  suc, ◌-◌, Bool, false, ◌&&◌, ◌||◌, ◌≡◌, refl, ap, ◌∙◌, none, some, List, [], ◌∷◌, ◌++◌, map, Text,
  TextSet, Map, codes, lookup, add, remove, contains, is_nil, any, All, arith, if◌then◌else◌, ◌==◌,
  eq_iff, eq_refl, contains-add, Bool-cases, lookup-remove, inl, inr, ok,
}
use mathlib.Core.List.{append_assoc, append-nil}
use envoyingresscontroller.Constants.{condition_true}
use envoyingresscontroller.Location.{LocationCache, get_node_status, get_list}
use envoyingresscontroller.Message.{Message, send}
use envoyingresscontroller.Resource.{Resource}
use envoyingresscontroller.External.{External}
use envoyingresscontroller.Controller.{Controller, returns, ◌>>=◌}
use envoyingresscontroller.Controller.Dispatch.{
  dispatch_message, dispatch_resource, dispatch_to, ready_node, ready_nodes, nodes_to_send,
  operation_for, drop_unreferenced, send_copy, sync_envoy_resource,
}
use envoyingresscontroller.Controller.Invariant.{IsFree, contains-nil}
use envoyingresscontroller.Controller.Sending.{read_lock_free}

-- The recorded status of the node is True.
abbrev pub is_ready : LocationCache → Text → Bool
is_ready lc n = elim (get_node_status lc n) [ none ↦ false | some s ↦ s == condition_true ]

-- Some of the groups has the node as a member.
abbrev pub in_groups : LocationCache → Text → List Text → Bool
in_groups lc n gs = any (λ g. contains n (get_list g lc.group2node)) gs

contains-ready_node :
    (lc : LocationCache) (m : Text) (found : TextSet) (n : Text)
    → contains n (ready_node lc m found) ≡ (contains n found || is_ready lc m && m == n)
unfolding ready_node
contains-ready_node lc m found n = ground (arith, contains-add m n found)

contains-ready_nodes :
    (lc : LocationCache) (ns : List Text) (found : TextSet) (n : Text)
    → contains n (ready_nodes lc ns found) ≡ (contains n found || is_ready lc n && contains n ns)
unfolding ready_nodes contains
contains-ready_nodes lc [] found n = ground arith
contains-ready_nodes lc (m ∷ ns) found n =
    contains-ready_nodes lc ns (ready_node lc m found) n ∙ elim (Bool-cases (m == n)) [
      | inl e ↦ rw ((eq_iff m n).0 e) (ground (arith, contains-ready_node lc n found n, eq_refl n))
      | inr e ↦ ground (arith, contains-ready_node lc m found n)
    ]

contains-onto :
    (lc : LocationCache) (gs : List Text) (found : TextSet) (n : Text)
    → contains n (nodes_to_send lc gs found)
      ≡ (contains n found || is_ready lc n && in_groups lc n gs)
unfolding nodes_to_send
contains-onto lc [] found n = ground arith
contains-onto lc (g ∷ gs) found n =
    contains-onto lc gs (ready_nodes lc (get_list g lc.group2node) found) n
    ∙ ground (arith, contains-ready_nodes lc (get_list g lc.group2node) found n)

-- No element stands twice.
abbrev pub IsDistinct : List Text → Type 0
IsDistinct [] = Unit
IsDistinct (x ∷ xs) = (contains x xs ≡ false) × IsDistinct xs

add-IsDistinct : (k : Text) (s : TextSet) → IsDistinct s → IsDistinct (add k s)
unfolding add contains
add-IsDistinct k [] h = (refl, tt)
add-IsDistinct k (j ∷ s) h =
    ground (arith, add-IsDistinct k s h.1, contains-add k j s, eq_iff k j, eq_iff j k)

ready_node-IsDistinct :
    (lc : LocationCache) (m : Text) (found : TextSet)
    → IsDistinct found
    → IsDistinct (ready_node lc m found)
unfolding ready_node
ready_node-IsDistinct lc m found h = ground (arith, add-IsDistinct m found h)

ready_nodes-IsDistinct :
    (lc : LocationCache) (ns : List Text) (found : TextSet)
    → IsDistinct found
    → IsDistinct (ready_nodes lc ns found)
unfolding ready_nodes
ready_nodes-IsDistinct lc [] found h = h
ready_nodes-IsDistinct lc (m ∷ ns) found h =
    ready_nodes-IsDistinct lc ns (ready_node lc m found) (ready_node-IsDistinct lc m found h)

nodes_to_send-IsDistinct :
    (lc : LocationCache) (gs : List Text) (found : TextSet)
    → IsDistinct found
    → IsDistinct (nodes_to_send lc gs found)
unfolding nodes_to_send
nodes_to_send-IsDistinct lc [] found h = h
nodes_to_send-IsDistinct lc (g ∷ gs) found h =
    nodes_to_send-IsDistinct lc gs (ready_nodes lc (get_list g lc.group2node) found)
      (ready_nodes-IsDistinct lc (get_list g lc.group2node) found h)

-- A node is among those that a resource is sent to exactly when one of the resource's groups lists it
-- and its recorded status is True, and no node stands there twice.
pub nodes_to_send_exact :
    (lc : LocationCache) (gs : List Text)
    → ((n : Text) → contains n (nodes_to_send lc gs []) ≡ (is_ready lc n && in_groups lc n gs))
      × IsDistinct (nodes_to_send lc gs [])
nodes_to_send_exact lc gs = (
  λ n. ground (arith, contains-onto lc gs [] n, contains-nil n),
  nodes_to_send-IsDistinct lc gs [] tt,
)

dispatch_resource-sent :
    (d : External) (r : Resource) (opr node : Text) (msg : Message) (c : Controller)
    → dispatch_message d r opr node ≡ ok msg
    → dispatch_resource d r opr node c
      ≡ (record c { sent = c.sent ++ send c.message_layer msg ∷ [] }, none)
unfolding dispatch_resource
dispatch_resource-sent d r opr node msg c h = rw (h, dispatch_resource)

dispatch_to-sent :
    (d : External) (r : Resource) (opr : Text) (msg : Text → Message) (ns : List Text)
    (c : Controller)
    → All (λ n. dispatch_message d r opr n ≡ ok (msg n)) ns
    → dispatch_to d r opr ns none c
      ≡ (record c { sent = c.sent ++ map (λ n. send c.message_layer (msg n)) ns }, none)
unfolding dispatch_to
dispatch_to-sent d r opr msg [] c h = ground (arith, append-nil c.sent)
dispatch_to-sent d r opr msg (n ∷ ns) c h =
    let one = send c.message_layer (msg n) in
    let rest = map (λ n. send c.message_layer (msg n)) ns in
    rw (dispatch_resource-sent d r opr n (msg n) c h.0) (
      dispatch_to-sent d r opr msg ns (record c { sent = c.sent ++ one ∷ [] }) h.1
      ∙ ap (λ t. (record c { sent = t }, none)) (append_assoc c.sent (one ∷ []) rest))

send_copy-sent :
    (d : External) (r : Resource) (msg : Text → Message) (nodes : List Text) (c : Controller)
    → nodes_to_send c.lc r.node_group [] ≡ nodes
    → All (λ n. dispatch_message d r (operation_for r) n ≡ ok (msg n)) nodes
    → send_copy d r c
      ≡ returns (record c { sent = c.sent ++ map (λ n. send c.message_layer (msg n)) nodes }) tt
unfolding send_copy
send_copy-sent d r msg nodes c e h = rw (e, dispatch_to-sent d r (operation_for r) msg nodes c h)

drop_unreferenced_effect :
    (name : Text) (r : Resource) (c : Controller)
    → let c' = drop_unreferenced name r c in
      (c'.lc ≡ c.lc)
      × (c'.sent ≡ c.sent)
      × (c'.message_layer ≡ c.message_layer)
      × (c'.resource_store
          ≡ (if is_nil r.ingress_ref then remove name c.resource_store else c.resource_store))
unfolding drop_unreferenced
drop_unreferenced_effect name r c = ground arith

left_in_store :
    (name : Text) (r : Resource) (store : Map Resource)
    → lookup name store ≡ some r
    → lookup name (if is_nil r.ingress_ref then remove name store else store)
      ≡ (if is_nil r.ingress_ref then none else some r)
left_in_store name r store s = ground (arith, lookup-remove name name store, eq_refl name)

-- When a message can be made for every node that a stored resource is sent to, `syncEnvoyResource`
-- returns, having sent exactly one message to each of these nodes: an insertion if an ingress refers
-- to the resource, which stays stored, and otherwise a deletion, after which it is not stored.
pub sync_envoy_resource-sent :
    (d : External) (name : Text) (r : Resource) (c : Controller) (msg : Text → Message)
    → lookup name c.resource_store ≡ some r
    → IsFree c
    → All
        (λ n.
          dispatch_message d r (if is_nil r.ingress_ref then codes "delete" else codes "insert") n
          ≡ ok (msg n))
        (nodes_to_send c.lc r.node_group [])
    → (c' : Controller) × (sync_envoy_resource d name c ≡ returns c' tt)
      × (c'.sent
          ≡ c.sent ++ map (λ n. send c.message_layer (msg n)) (nodes_to_send c.lc r.node_group []))
      × (lookup name c'.resource_store ≡ (if is_nil r.ingress_ref then none else some r))
unfolding sync_envoy_resource
sync_envoy_resource-sent d name r c msg s f h =
    let held = record c { store_readers = suc c.store_readers } in
    let dropped = drop_unreferenced name r held in
    let open_again = record dropped { store_readers = dropped.store_readers - 1 } in
    let (cache, sent, layer, store) = drop_unreferenced_effect name r held in
    let nodes = nodes_to_send c.lc r.node_group [] in
    (
      record open_again {
        sent = open_again.sent ++ map (λ n. send open_again.message_layer (msg n)) nodes;
      },
      rw (read_lock_free c f, ◌>>=◌, s)
          (send_copy-sent d r msg nodes open_again
            (ap (λ lc. nodes_to_send lc r.node_group []) cache) h),
      rw (sent, layer),
      ap (lookup name) store ∙ left_in_store name r c.resource_store s,
    )
