-- ===== src/Controller/Sync.antt =====
-- envoyingresscontroller.go: `syncEnvoyIngress`, which brings the stored resources of one ingress up
-- to date.
use envoyingresscontroller.Prelude.{
  Bool, Option, none, some, List, [], ◌∷◌, ◌++◌, Text, TextSet, Map, lookup, put, remove, add,
  discard, split, any, get_text, is_nil, if◌then◌else◌, ◌==◌, Outcome, ok, err, or_err, bad_key,
  lister_failed, not_envoy_ingress, ◌>>=◌ as ◌|>◌,
}
use envoyingresscontroller.Constants.{condition_true, envoy_ingress_nodegroup_annotation, semicolon}
use envoyingresscontroller.Kube.{Listers, Ingress, V1beta1Ingress, Answer, found, not_found, failed}
use envoyingresscontroller.Location.{LocationCache, get_node_status}
use envoyingresscontroller.Convert.{to_v1_ingress}
use envoyingresscontroller.Matching.{is_envoy_ingress}
use envoyingresscontroller.Resource.{Resource, envoy_resource_key_func}
use envoyingresscontroller.External.{External}
use envoyingresscontroller.Translate.Secrets.{get_secrets_for_ingress}
use envoyingresscontroller.Translate.Endpoints.{get_endpoints_for_ingress}
use envoyingresscontroller.Translate.Clusters.{get_clusters_for_ingress}
use envoyingresscontroller.Translate.Routes.{get_route_for_ingress}
use envoyingresscontroller.Translate.Listeners.{get_listeners_for_ingress}
use envoyingresscontroller.Controller.{
  Controller, Run, Action, ◌>>=◌, ◌>>◌, pure, fail, gets, modify, lift, lock, unlock,
  enqueue_envoy_resource, names_of,
}

-- An error of one kind of resource is logged, and the others are still made.
unfoldable pub tolerate : Outcome (List Resource) → Outcome (List Resource)
tolerate (ok rs) = ok rs
tolerate (err e) = ok []
tolerate Outcome.panics = Outcome.panics

-- All the resources that an ingress asks for, in the order of the source.
unfoldable pub envoy_resources : Listers → External → Ingress → Outcome (List Resource)
envoy_resources ls d ingress = tolerate (get_secrets_for_ingress ls d ingress) |> λ secrets.
    tolerate (get_endpoints_for_ingress ls d ingress) |> λ endpoints.
    tolerate (get_clusters_for_ingress ls d ingress) |> λ clusters.
    tolerate (get_route_for_ingress ls d ingress |> λ route. ok (route ∷ [])) |> λ routes.
    tolerate (get_listeners_for_ingress ls d ingress) |> λ listeners.
    ok (secrets ++ (endpoints ++ (clusters ++ (routes ++ listeners))))

-- delete(resource.IngressRef, key)
unfoldable pub without_ref : Text → Resource → Resource
without_ref key r = record r { ingress_ref = discard key r.ingress_ref }

-- The body of the loop over the resources of a deleted ingress, between the lock and the unlock.
unfoldable pub release_resource : Text → Text → Resource → Controller → Controller
unfolding without_ref enqueue_envoy_resource
release_resource key name r c =
    let r' = without_ref key r in
    let c' = record c { resource_store = put name r' c.resource_store } in
    if is_nil r'.ingress_ref then enqueue_envoy_resource r' c' else c'

-- The loop itself: a name that is not stored goes on with the lock held.
unfoldable pub release_loop : Text → List Text → Action (Unit {0})
unfolding release_resource lock
release_loop key [] = pure tt
release_loop key (name ∷ names) =
    let rest = release_loop key names in
    do
      lock
      stored ← gets (λ c. lookup name c.resource_store)
      elim stored [ none ↦ rest | some r ↦ (do modify (release_resource key name r); unlock; rest) ]

abbrev forget_names : Text → Controller → Controller
forget_names key c = record c { ingress_to_resource_names = remove key c.ingress_to_resource_names }

-- The branch for an ingress that neither lister has.
unfoldable pub delete_ingress_resources : Text → Action (Unit {0})
unfolding release_loop
delete_ingress_resources key = do
  names ← gets (λ c. names_of key c.ingress_to_resource_names)
  modify (forget_names key)
  release_loop key names
  modify (forget_names key)

-- `fresh`: the ingress still asks for the resource of that name.
unfoldable pub is_fresh : Text → List Resource → Bool
is_fresh name resources = any (λ r. name == envoy_resource_key_func r) resources

-- A name leaves the names of an ingress that has some.
unfoldable pub forget_name : Text → Text → Map TextSet → Map TextSet
forget_name key name m = elim (lookup key m) [
  | none ↦ m
  | some names ↦ put key (discard name names) m
]

-- The body of the loop over the stale resources, between the lock and the unlock: the name stays
-- with the ingress as long as another ingress refers to the resource.
unfoldable pub retire_resource : Text → Text → Resource → Controller → Controller
unfolding without_ref forget_name enqueue_envoy_resource
retire_resource key name r c =
    let r' = without_ref key r in
    let c' = record c { resource_store = put name r' c.resource_store } in
    if is_nil r'.ingress_ref
    then enqueue_envoy_resource r' (record c' {
      ingress_to_resource_names = forget_name key name c'.ingress_to_resource_names;
    })
    else c'

unfoldable pub retire_stored : Text → Text → Option Resource → Controller → Controller
unfolding retire_resource
retire_stored key name none c = c
retire_stored key name (some r) c = retire_resource key name r c

unfoldable pub retire_loop : Text → List Resource → List Text → Action (Unit {0})
unfolding retire_stored is_fresh lock
retire_loop key resources [] = pure tt
retire_loop key resources (name ∷ names) =
    let rest = retire_loop key resources names in
    if is_fresh name resources then rest else do
      lock
      stored ← gets (λ c. lookup name c.resource_store)
      modify (retire_stored key name stored)
      unlock
      rest

-- ingressToResourceNameStore[key] is made where it is missing.
unfoldable pub ensure_names : Text → Controller → Controller
ensure_names key c = elim (lookup key c.ingress_to_resource_names) [
  | none ↦ record c { ingress_to_resource_names = put key [] c.ingress_to_resource_names }
  | some names ↦ c
]

-- The loop over the parts of the annotation: each is asked for as a node, and kept if its status is
-- True.
unfoldable pub ready_groups : LocationCache → List Text → TextSet → TextSet
ready_groups lc [] groups = groups
ready_groups lc (g ∷ gs) groups = ready_groups lc gs (
    if is_nil g then groups else elim (get_node_status lc g) [
      | none ↦ groups
      | some status ↦ if status == condition_true then add g groups else groups
    ])

unfoldable pub set_node_groups : Text → Ingress → Controller → Controller
set_node_groups key ingress c = record c {
  ingress_node_groups =
      put key
        (ready_groups c.lc
          (split semicolon (get_text envoy_ingress_nodegroup_annotation ingress.annotations)) [])
        c.ingress_node_groups;
}

-- A resource whose key is not stored is stored, and its name is kept for the ingress.
unfoldable pub create_resource : Text → Resource → Controller → Controller
unfolding enqueue_envoy_resource
create_resource key r c =
    let name = envoy_resource_key_func r in
    let r' = record r { ingress_ref = add key r.ingress_ref } in
    enqueue_envoy_resource r' (record c {
      resource_store = put name r' c.resource_store;
      ingress_to_resource_names =
          put key (add name (names_of key c.ingress_to_resource_names)) c.ingress_to_resource_names;
    })

-- A resource whose key is stored replaces the message and the version there, and nothing else.
unfoldable pub update_resource : Text → Resource → Resource → Controller → Controller
unfolding enqueue_envoy_resource
update_resource key r old c =
    let r' = record old {
      ingress_ref = add key old.ingress_ref;
      spec = r.spec;
      resource_version = r.resource_version;
    } in
    enqueue_envoy_resource r'
      (record c { resource_store = put (envoy_resource_key_func r) r' c.resource_store })

unfoldable pub insert_resource : Text → Resource → Controller → Controller
unfolding create_resource update_resource
insert_resource key r c = elim (lookup (envoy_resource_key_func r) c.resource_store) [
  | none ↦ create_resource key r c
  | some old ↦ update_resource key r old c
]

unfoldable pub insert_loop : Text → List Resource → Controller → Controller
unfolding insert_resource
insert_loop key [] c = c
insert_loop key (r ∷ rs) c = insert_loop key rs (insert_resource key r c)

-- From the resources on: deletion, node groups and insertion.
unfoldable pub store_resources : Text → Ingress → List Resource → Action (Unit {0})
unfolding retire_loop ensure_names set_node_groups insert_loop lock
store_resources key ingress resources = do
  stale ← gets (λ c. names_of key c.ingress_to_resource_names)
  modify (ensure_names key)
  retire_loop key resources stale
  modify (set_node_groups key ingress)
  lock
  modify (insert_loop key resources)
  unlock

unfoldable pub sync_present : Listers → External → Text → Ingress → Action (Unit {0})
unfolding store_resources
sync_present ls d key ingress =
    if is_envoy_ingress ingress
    then (do resources ← lift (envoy_resources ls d ingress); store_resources key ingress resources)
    else fail not_envoy_ingress

-- The answers of the two listers. An error of the v1 lister that is not NotFound leaves `ingress`
-- nil, and reading its annotations panics.
unfoldable pub sync_answer :
    Listers → External → Text → Answer Ingress → Answer V1beta1Ingress → Action (Unit {0})
unfolding sync_present delete_ingress_resources
sync_answer ls d key (found ingress) beta = sync_present ls d key ingress
sync_answer ls d key failed beta = λ c. Run.panics
sync_answer ls d key not_found (found beta) = sync_present ls d key (to_v1_ingress beta)
sync_answer ls d key not_found failed = fail lister_failed
sync_answer ls d key not_found not_found = delete_ingress_resources key

-- syncEnvoyIngress
unfoldable pub sync_envoy_ingress : Listers → External → Text → Action (Unit {0})
unfolding sync_answer
sync_envoy_ingress ls d key = do
  (namespace, name) ← lift (or_err (d.split_meta_namespace_key key) bad_key)
  sync_answer ls d key (ls.get_ingress namespace name) (ls.get_v1beta1_ingress namespace name)
