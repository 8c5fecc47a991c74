-- ===== src/Matching.antt =====
-- cloud/pkg/envoyingresscontroller/envoyingresscontroller.go: which ingresses a service or a secret
-- touches, which services an ingress sends to, and which node groups it is for. `rule.HTTP` and
-- `path.Backend.Service` are pointers that the loops read without a test: nil is a panic.
pub mod Sound
pub mod Agreement
use envoyingresscontroller.Prelude.{
  Bool, true, false, ◌&&◌, ◌||◌, not, Option, none, some, List, [], ◌∷◌, ◌++◌, map, Text, TextSet,
  Map, codes, split, get_text, lookup, add, contains, is_nil, if◌then◌else◌, ◌==◌, Outcome, ok, err,
  panics, ◌>>=◌, deref, any, no_nodegroup, no_services, lister_failed,
}
use envoyingresscontroller.Constants.{
  ingress_class_annotation, envoy_ingress_controller_name, envoy_ingress_nodegroup_annotation,
  semicolon, slash,
}
use envoyingresscontroller.Kube.{
  Listers, Ingress, IngressBackend, IngressRule, IngressTls, HttpIngressPath, V1beta1Ingress,
  Service, Secret,
}
use envoyingresscontroller.Convert.{to_v1_ingress}

-- ingress.Annotations[INGRESSCLASSANNOTATION] == ENVOYINGRESSCONTROLLERNAME
unfoldable pub is_envoy_ingress : Ingress → Bool
is_envoy_ingress ingress =
    get_text ingress_class_annotation ingress.annotations == envoy_ingress_controller_name

-- The test on the default backend.
unfoldable pub default_backend_names : Text → Option IngressBackend → Bool
default_backend_names name none = false
default_backend_names name (some b) = elim b.service [ none ↦ false | some s ↦ s.name == name ]

-- The inner loop: it stops at the first path of the service.
unfoldable pub paths_name : Text → List HttpIngressPath → Outcome Bool
paths_name name [] = ok false
paths_name name (p ∷ ps) =
    let rest = paths_name name ps in
    elim p.backend.service [ none ↦ panics | some s ↦ if s.name == name then ok true else rest ]

-- RuleLoop: it stops at the first rule that has such a path.
unfoldable pub rules_name : Text → List IngressRule → Outcome Bool
rules_name name [] = ok false
rules_name name (r ∷ rs) =
    let rest = rules_name name rs in
    elim r.http [
      | none ↦ panics
      | some paths ↦ paths_name name paths >>= λ hit. if hit then ok true else rest
    ]

-- Whether the ingress sends to a service of that name: the body that getIngressesForService and
-- getServicesForIngress share.
unfoldable pub ingress_names : Text → Ingress → Outcome Bool
ingress_names name ingress =
    if default_backend_names name ingress.default_backend
    then ok true
    else rules_name name ingress.rules

-- The v1 ingresses of a namespace followed by the converted v1beta1 ones.
unfoldable pub merged_ingresses : Listers → Text → Option (List Ingress)
merged_ingresses ls namespace = elim (ls.ingresses_in namespace) [
  | none ↦ none
  | some list ↦ elim (ls.v1beta1_ingresses_in namespace) [
    | none ↦ none
    | some betas ↦ some (list ++ map to_v1_ingress betas)
  ]
]

unfoldable pub select_for_service : Service → List Ingress → Outcome (List Ingress)
select_for_service service [] = ok []
select_for_service service (i ∷ is) =
    let rest = select_for_service service is in
    if is_envoy_ingress i && i.namespace == service.namespace
    then (do hit ← ingress_names service.name i; more ← rest; ok (if hit then i ∷ more else more))
    else rest

-- getIngressesForService: a service with no selector matches nothing, and a lister that fails is
-- logged and gives nil.
unfoldable pub get_ingresses_for_service : Listers → Service → Outcome (List Ingress)
get_ingresses_for_service ls service =
    if is_nil service.selector then ok [] else elim (merged_ingresses ls service.namespace) [
      | none ↦ ok []
      | some list ↦ select_for_service service list
    ]

unfoldable pub select_for_ingress : Ingress → List Service → Outcome (List Service)
select_for_ingress ingress [] = ok []
select_for_ingress ingress (s ∷ ss) =
    let rest = select_for_ingress ingress ss in
    if s.namespace == ingress.namespace
    then (do hit ← ingress_names s.name ingress; more ← rest; ok (if hit then s ∷ more else more))
    else rest

-- getServicesForIngress
unfoldable pub get_services_for_ingress : Listers → Ingress → Outcome (List Service)
get_services_for_ingress ls ingress = elim (ls.services_in ingress.namespace) [
  | none ↦ err lister_failed
  | some list ↦ select_for_ingress ingress list >>= λ services.
      if is_nil services then err no_services else ok services
]

-- The loop over `ingress.Spec.TLS` stops at the first entry of the secret.
unfoldable pub tls_names : Text → List IngressTls → Bool
tls_names name tls = any (λ t. t.secret_name == name) tls

unfoldable pub select_for_secret : Secret → List Ingress → List Ingress
select_for_secret secret [] = []
select_for_secret secret (i ∷ is) =
    let rest = select_for_secret secret is in
    if is_envoy_ingress i && tls_names secret.name i.tls then i ∷ rest else rest

-- getIngressesForSecret
unfoldable pub get_ingresses_for_secret : Listers → Secret → List Ingress
get_ingresses_for_secret ls secret = elim (merged_ingresses ls secret.namespace) [
  | none ↦ []
  | some list ↦ select_for_secret secret list
]

-- The parts of the annotation that are not empty, as a set.
unfoldable pub nodegroup_set : List Text → TextSet → TextSet
nodegroup_set [] s = s
nodegroup_set (g ∷ gs) s = nodegroup_set gs (if is_nil g then s else add g s)

-- getNodeGroupForIngress
unfoldable pub get_node_group_for_ingress : Ingress → Outcome TextSet
get_node_group_for_ingress ingress =
    let groups =
      nodegroup_set
        (split semicolon (get_text envoy_ingress_nodegroup_annotation ingress.annotations)) [] in
    if is_nil groups then err no_nodegroup else ok groups
