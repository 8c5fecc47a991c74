-- ===== src/Controller/Initiate.antt =====
-- envoyingresscontroller.go: `initCache` and `initiateEnvoyResources`, which run before the workers
-- start. `reflect.DeepEqual` of two specs is a parameter.
use envoyingresscontroller.Prelude.{
  Bool, none, some, List, [], ◌∷◌, ◌++◌, map, Text, lookup, put, add, if◌then◌else◌, lister_failed,
  or_err,
}
use envoyingresscontroller.Constants.{node_group_label}
use envoyingresscontroller.Kube.{Listers, Ingress, Node}
use envoyingresscontroller.Convert.{to_v1_ingress}
use envoyingresscontroller.Location.{LocationCache, update_node_group, update_edge_node}
use envoyingresscontroller.Matching.{is_envoy_ingress}
use envoyingresscontroller.Resource.{Resource, Spec, envoy_resource_key_func}
use envoyingresscontroller.External.{External}
use envoyingresscontroller.Controller.{
  Controller, Action, ◌>>=◌, ◌>>◌, pure, fail, modify, lift, enqueue_envoy_resource,
}
use envoyingresscontroller.Controller.Sync.{envoy_resources, create_resource}
use envoyingresscontroller.Controller.Events.{note_node_groups}

unfoldable pub cache_nodes : List Node → LocationCache → LocationCache
cache_nodes [] lc = lc
cache_nodes (n ∷ ns) lc = cache_nodes ns (elim (lookup node_group_label n.labels) [
  | none ↦ lc
  | some _ ↦ update_edge_node (update_node_group lc n) n
])

-- initCache
unfoldable pub init_cache : Listers → Action (Unit {0})
unfolding cache_nodes
init_cache ls = elim ls.all_nodes [
  | none ↦ fail lister_failed
  | some nodes ↦ modify (λ c. record c { lc = cache_nodes nodes c.lc })
]

-- A resource that is stored already is queued only if its spec has changed.
unfoldable pub initiate_stored :
    (Spec → Spec → Bool) → Text → Resource → Resource → Controller → Controller
unfolding enqueue_envoy_resource
initiate_stored deep_equal key r old c =
    let name = envoy_resource_key_func r in
    let r' = record old { ingress_ref = add key old.ingress_ref } in
    if deep_equal r.spec old.spec
    then record c { resource_store = put name r' c.resource_store }
    else let fresh = record r' { spec = r.spec; resource_version = r.resource_version } in
      enqueue_envoy_resource fresh (record c { resource_store = put name fresh c.resource_store })

unfoldable pub initiate_loop : (Spec → Spec → Bool) → Text → List Resource → Controller → Controller
unfolding initiate_stored
initiate_loop deep_equal key [] c = c
initiate_loop deep_equal key (r ∷ rs) c =
    initiate_loop deep_equal key rs (elim (lookup (envoy_resource_key_func r) c.resource_store) [
      | none ↦ create_resource key r c
      | some old ↦ initiate_stored deep_equal key r old c
    ])

abbrev pub reset_names : Text → Controller → Controller
reset_names key c = record c { ingress_to_resource_names = put key [] c.ingress_to_resource_names }

-- The body of the loop over the ingresses.
unfoldable pub initiate_ingress :
    (Spec → Spec → Bool) → Listers → External → Ingress → Action (Unit {0})
unfolding initiate_loop
initiate_ingress deep_equal ls d ingress =
    if is_envoy_ingress ingress
    then (do
      modify (note_node_groups (d.key_func ingress) ingress)
      resources ← lift (envoy_resources ls d ingress)
      modify (reset_names (d.key_func ingress))
      modify (initiate_loop deep_equal (d.key_func ingress) resources))
    else pure tt

unfoldable pub initiate_ingresses :
    (Spec → Spec → Bool) → Listers → External → List Ingress → Action (Unit {0})
unfolding initiate_ingress
initiate_ingresses deep_equal ls d [] = pure tt
initiate_ingresses deep_equal ls d (i ∷ is) =
    let rest = initiate_ingresses deep_equal ls d is in do initiate_ingress deep_equal ls d i; rest

-- initiateEnvoyResources
unfoldable pub initiate_envoy_resources :
    (Spec → Spec → Bool) → Listers → External → Action (Unit {0})
unfolding initiate_ingresses
initiate_envoy_resources deep_equal ls d = do
  ingresses ← lift (or_err ls.all_ingresses lister_failed)
  betas ← lift (or_err ls.all_v1beta1_ingresses lister_failed)
  initiate_ingresses deep_equal ls d (ingresses ++ map to_v1_ingress betas)

-- What Run does before it starts the workers. It stops at the first of the two errors.
unfoldable pub start_up : (Spec → Spec → Bool) → Listers → External → Action (Unit {0})
unfolding init_cache initiate_envoy_resources
start_up deep_equal ls d = do init_cache ls; initiate_envoy_resources deep_equal ls d
