-- ===== src/CloudHub/Envoy.antt =====
-- From `dispatchResource` of the ingress controller over the list queue of CloudHub to the connection
-- of the node.
use envoyingresscontroller.Prelude.{
  true, false, ◌≡◌, refl, ap, ◌∙◌, subst, none, some, [], ◌∷◌, ◌++◌, Text, codes, lookup, put,
  remove, split, split-append, All, Lacks, ◌==◌, eq_refl, is_nil, arith, ok, Option-cases, inl, inr,
  lookup-put, lookup-remove,
}
use mathlib.Core.List.{append_assoc}
use envoyingresscontroller.Constants.{slash, envoy_ingress_controller_name}
use envoyingresscontroller.Resource
use envoyingresscontroller.Resource.{Resource, Spec}
use envoyingresscontroller.External.{External}
use envoyingresscontroller.Message.{
  Message, build_resource, starts_with, resource_node, get_resource_type,
}
use envoyingresscontroller.Controller.Dispatch.{dispatch_message, resource_kind}
use envoyingresscontroller.CloudHub.{HubMessage, has_part, is_to_edge, is_node_stopped}
use envoyingresscontroller.CloudHub.Sends.{
  Sender, Link, goes_on, list_write_round, list_send, hub_io_write, trim_copy,
}
use envoyingresscontroller.CloudHub.Queues.{
  ChannelMessageQueue, ObjectSyncs, entry, dispatch, get_node_id, is_list_resource,
  add_list_message, add_key, get_list_msg_key, after_node, Queue, forget, done,
}

starts_with-append : (p t : Text) → starts_with p (p ++ t) ≡ true
unfolding starts_with
starts_with-append [] t = refl
starts_with-append (b ∷ p) t = ground (arith, starts_with-append p t)

has_part-here : (p t : Text) → starts_with p t ≡ true → has_part p t ≡ true
unfolding has_part starts_with
has_part-here [] [] h = refl
has_part-here (a ∷ p) [] h = cc
has_part-here p (b ∷ t) h = rw h refl

has_part-append : (p s t : Text) → starts_with p t ≡ true → has_part p (s ++ t) ≡ true
unfolding has_part
has_part-append p [] t h = has_part-here p t h
has_part-append p (b ∷ s) t h = ground (arith, has_part-append p s t h)

flat :
    (node namespace kind name : Text)
    → (resource_node ++ slash ∷ (node ++ slash ∷ (namespace ++ slash ∷ kind)))
        ++ slash ∷ (codes "envoy" ++ name)
      ≡ resource_node
        ++ slash
          ∷ (node ++ slash ∷ (namespace ++ slash ∷ (kind ++ slash ∷ (codes "envoy" ++ name))))
flat node namespace kind name = simp append_assoc

-- What `BuildResource` makes for an Envoy resource: "node", the node, and a rest with "envoy" in it.
built :
    (node namespace kind name r : Text)
    → build_resource node namespace kind (codes "envoy" ++ name) ≡ ok r
    → (r
        ≡ resource_node
          ++ slash
            ∷ (node ++ slash ∷ (namespace ++ slash ∷ (kind ++ slash ∷ (codes "envoy" ++ name)))))
      × (is_nil node ≡ false)
unfolding build_resource
built node namespace kind name r e = ground (arith, flat node namespace kind name)

-- `dispatchResource` builds such a resource of a kind that is not "node".
dispatched :
    (d : External) (r : Resource) (opr node : Text) (m : Message)
    → dispatch_message d r opr node ≡ ok m
    → (kind : Text) × (resource_kind r.spec ≡ some kind)
      × (build_resource node r.namespace kind (codes "envoy" ++ r.name) ≡ ok m.resource)
      × (m.source ≡ envoy_ingress_controller_name)
unfolding dispatch_message
dispatched d r opr node m e = elim (Option-cases (resource_kind r.spec)) [
  | inl p ↦ absurd (ground arith)
  | inr (kind, p) ↦ elim (Option-cases (d.marshal r.spec)) [
    | inl q ↦ absurd (ground arith)
    | inr (b, q) ↦ (kind, p, ground arith, ground arith)
  ]
]

abbrev namespace_on : Text → Text → Text → Text
namespace_on namespace kind name = namespace ++ slash ∷ (kind ++ slash ∷ (codes "envoy" ++ name))

envoy_part :
    (node namespace kind name : Text)
    → has_part
        (codes "envoy")
        (resource_node ++ slash ∷ (node ++ slash ∷ namespace_on namespace kind name))
      ≡ true
envoy_part node namespace kind name =
    ap (has_part (codes "envoy")) reassociated
    ∙ has_part-append (codes "envoy")
        (resource_node ++ slash ∷ (node ++ slash ∷ (namespace ++ slash ∷ (kind ++ slash ∷ []))))
        (codes "envoy" ++ name) (starts_with-append (codes "envoy") name)
  where
    reassociated :
        resource_node ++ slash ∷ (node ++ slash ∷ namespace_on namespace kind name)
        ≡ (resource_node ++ slash ∷ (node ++ slash ∷ (namespace ++ slash ∷ (kind ++ slash ∷ []))))
          ++ (codes "envoy" ++ name)
    reassociated = simp append_assoc

abbrev Other : Text → Type 0
Other kind = (Lacks slash kind) × ((kind == resource_node) ≡ false)

some-injective : {s t : Text} → some s ≡ some t → s ≡ t
some-injective e = cc

kind_is_no_node :
    (s : Spec) (kind : Text)
    → resource_kind s ≡ some kind
    → (Lacks slash kind) × ((kind == resource_node) ≡ false)
unfolding resource_kind ◌==◌
kind_is_no_node (Resource.secret s) kind e = subst Other (some-injective e) (omega arith, refl)
kind_is_no_node (Resource.endpoint s) kind e = subst Other (some-injective e) (omega arith, refl)
kind_is_no_node (Resource.cluster s) kind e = subst Other (some-injective e) (omega arith, refl)
kind_is_no_node (Resource.route s) kind e = subst Other (some-injective e) (omega arith, refl)
kind_is_no_node (Resource.listener s) kind e = subst Other (some-injective e) (omega arith, refl)
kind_is_no_node Resource.other kind e = cc

is_to_edge-source :
    (h : HubMessage) → h.message.source ≡ envoy_ingress_controller_name → is_to_edge h ≡ true
unfolding is_to_edge ◌==◌
is_to_edge-source h e = rw (e, is_to_edge) refl

-- The node of such a message, its lane, the list queue, and what the list loop asks of it.
listed :
    (d : External) (r : Resource) (opr node : Text) (h : HubMessage)
    → All (Lacks slash) (node ∷ r.namespace ∷ [])
    → dispatch_message d r opr node ≡ ok h.message
    → (get_node_id h ≡ ok node)
      × (is_list_resource h ≡ true)
      × (is_node_stopped h ≡ false)
      × (is_to_edge h ≡ true)
unfolding get_node_id is_list_resource is_node_stopped after_node get_resource_type
listed d r opr node h l e =
    let (kind, k, b, source) = dispatched d r opr node h.message e in
    let (lk, no_node) = kind_is_no_node r.spec kind k in
    let (p, some_node) = built node r.namespace kind r.name h.message.resource b in
    let s : split slash h.message.resource
        ≡ resource_node ∷ node ∷ r.namespace ∷ kind ∷ split slash (codes "envoy" ++ r.name) =
      ap (split slash) p
      ∙ split-append slash resource_node (node ++ slash ∷ namespace_on r.namespace kind r.name)
          (omega arith)
      ∙ ap (λ ps. resource_node ∷ ps)
          (split-append slash node (namespace_on r.namespace kind r.name) l.0)
      ∙ ap (λ ps. resource_node ∷ node ∷ ps)
          (split-append slash r.namespace (kind ++ slash ∷ (codes "envoy" ++ r.name)) l.1.0)
      ∙ ap (λ ps. resource_node ∷ node ∷ r.namespace ∷ ps)
          (split-append slash kind (codes "envoy" ++ r.name) lk) in
    let part : has_part (codes "envoy") h.message.resource ≡ true =
      ap (has_part (codes "envoy")) p ∙ envoy_part node r.namespace kind r.name in
    (
      ground (arith, s, some_node, eq_refl resource_node),
      ground (arith, part),
      ground (arith, s, no_node),
      is_to_edge-source h source,
    )

-- The next round of the list loop for the message, over the store that has it.
list_write_round-held :
    (h : HubMessage) (link : Link) (node_queue list_queue : Queue) (s : Sender)
    → lookup h.id s.store ≡ some h
    → is_node_stopped h ≡ false
    → is_to_edge h ≡ true
    → link.locked ≡ true
    → link.writes ≡ true
    → list_write_round h.id true link node_queue list_queue s
      ≡ goes_on (list_queue ++ forget h.id ∷ done h.id ∷ []) (record s {
        store = remove h.id (put h.id (trim_copy h) s.store);
        written = s.written ++ trim_copy h ∷ [];
      })
unfolding list_write_round list_send hub_io_write
list_write_round-held h link node_queue list_queue s a b c p q =
    rw (a, b, c, p, q, list_write_round) refl

-- A message that `dispatchResource` makes for a node, the node and the namespace having no slash in them, is stored in the
-- node's list store under the identity of its header and has that key added at the end of the node's list queue, whatever object
-- syncs there are, while the queues and stores with the test of versions are left alone; and the next round of the list
-- loop for the key, over that store and when the node has a lock and a connection that takes the data,
-- writes the message trimmed to the connection, takes it out of the list store and forgets its key.
pub dispatch_message-delivered :
    (d : External) (r : Resource) (opr node : Text) (h : HubMessage) (syncs : ObjectSyncs)
    (q : ChannelMessageQueue) (link : Link) (node_queue list_queue : Queue) (s : Sender)
    → All (Lacks slash) (node ∷ r.namespace ∷ [])
    → dispatch_message d r opr node ≡ ok h.message
    → link.locked ≡ true
    → link.writes ≡ true
    → s.store ≡ put h.id h (entry node q.list_store_pool)
    → ((q' : ChannelMessageQueue) × (dispatch syncs h q ≡ ok q')
        × (lookup node q'.list_queue_pool
            ≡ some (entry node q.list_queue_pool ++ add_key h.id ∷ []))
        × (lookup node q'.list_store_pool ≡ some s.store)
        × (q'.queue_pool ≡ q.queue_pool)
        × (q'.store_pool ≡ q.store_pool))
      × ((s' : Sender) × (list_write_round h.id true link node_queue list_queue s
            ≡ goes_on (list_queue ++ forget h.id ∷ done h.id ∷ []) s')
          × (s'.written ≡ s.written ++ trim_copy h ∷ [])
          × (lookup h.id s'.store ≡ none))
unfolding dispatch add_list_message get_list_msg_key
dispatch_message-delivered d r opr node h syncs q link node_queue list_queue s l e p w st =
    let (n, i, x, y) = listed d r opr node h l e in
    let stored = entry node q.list_store_pool in
    let held : lookup h.id s.store ≡ some h =
      rw st (ground (arith, lookup-put h.id h.id h stored, eq_refl h.id)) in
    let keys = entry node q.list_queue_pool ++ add_key h.id ∷ [] in
    (
      (
        add_list_message node h q,
        rw (n, i, dispatch) refl,
        ground (arith, lookup-put node node keys q.list_queue_pool, eq_refl node),
        rw st (
            ground
              (arith, lookup-put node node (put h.id h stored) q.list_store_pool, eq_refl node)),
        refl,
        refl,
      ),
      (
        _,
        list_write_round-held h link node_queue list_queue s held x y p w,
        refl,
        ground (arith, lookup-remove h.id h.id (put h.id (trim_copy h) s.store), eq_refl h.id),
      ),
    )
