-- ===== src/Matching/Sound.antt =====
-- envoyingresscontroller.go: `getIngressesForService` and `getServicesForIngress` beside a description
-- of what they look for, where the pointers they read are set.
use envoyingresscontroller.Prelude.{
  Bool, true, false, ◌&&◌, ◌≡◌, refl, none, some, List, [], ◌∷◌, Text, keep, any, All, is_nil,
  if◌then◌else◌, ◌==◌, arith, ok, err, no_services,
}
use envoyingresscontroller.Kube.{Listers, Ingress, IngressRule, HttpIngressPath, Service}
use envoyingresscontroller.Matching.{
  is_envoy_ingress, default_backend_names, paths_name, rules_name, ingress_names, merged_ingresses,
  select_for_service, get_ingresses_for_service, select_for_ingress, get_services_for_ingress,
}

-- The pointers of a path and of a rule are set.
abbrev pub HasService : HttpIngressPath → Type 0
HasService p = (s : _) × (p.backend.service ≡ some s)

abbrev pub HasPaths : IngressRule → Type 0
HasPaths r = (ps : List HttpIngressPath) × (r.http ≡ some ps) × All HasService ps

abbrev pub IsComplete : Ingress → Type 0
IsComplete i = All HasPaths i.rules

-- Whether a path, a rule and an ingress send to a service of that name, with no pointer read.
abbrev pub path_sends : Text → HttpIngressPath → Bool
path_sends name p = elim p.backend.service [ none ↦ false | some s ↦ s.name == name ]

abbrev pub rule_sends : Text → IngressRule → Bool
rule_sends name r = elim r.http [ none ↦ false | some ps ↦ any (path_sends name) ps ]

abbrev pub sends_to : Text → Ingress → Bool
sends_to name i =
    if default_backend_names name i.default_backend then true else any (rule_sends name) i.rules

abbrev pub reaches_service : Service → Ingress → Bool
reaches_service s i = (is_envoy_ingress i && i.namespace == s.namespace) && sends_to s.name i

abbrev pub serves_ingress : Ingress → Service → Bool
serves_ingress i s = s.namespace == i.namespace && sends_to s.name i

paths_name-any :
    (name : Text) (ps : List HttpIngressPath)
    → All HasService ps
    → paths_name name ps ≡ ok (any (path_sends name) ps)
unfolding paths_name
paths_name-any name [] h = refl
paths_name-any name (p ∷ ps) ((s, e), h) = ground (arith, e, paths_name-any name ps h)

rules_name-any :
    (name : Text) (rs : List IngressRule)
    → All HasPaths rs
    → rules_name name rs ≡ ok (any (rule_sends name) rs)
unfolding rules_name
rules_name-any name [] h = refl
rules_name-any name (r ∷ rs) ((ps, e, hp), h) =
    ground (arith, e, paths_name-any name ps hp, rules_name-any name rs h)

pub ingress_names-sends_to :
    (name : Text) (i : Ingress) → IsComplete i → ingress_names name i ≡ ok (sends_to name i)
unfolding ingress_names
ingress_names-sends_to name i h = ground (arith, rules_name-any name i.rules h)

select_for_service-keep :
    (s : Service) (is : List Ingress)
    → All IsComplete is
    → select_for_service s is ≡ ok (keep (reaches_service s) is)
unfolding select_for_service
select_for_service-keep s [] h = refl
select_for_service-keep s (i ∷ is) (hi, h) =
    ground (arith, ingress_names-sends_to s.name i hi, select_for_service-keep s is h)

select_for_ingress-keep :
    (i : Ingress) (ss : List Service)
    → IsComplete i
    → select_for_ingress i ss ≡ ok (keep (serves_ingress i) ss)
unfolding select_for_ingress
select_for_ingress-keep i [] h = refl
select_for_ingress-keep i (s ∷ ss) h =
    ground (arith, ingress_names-sends_to s.name i h, select_for_ingress-keep i ss h)

-- Of the ingresses of its namespace, v1 and converted v1beta1, whose rules have their paths and their services, a service
-- with a selector gets those, in their order, that have the class of the controller, are in its namespace and send to
-- it by their default backend or by a path.
pub get_ingresses_for_service-exact :
    (ls : Listers) (s : Service) (list : List Ingress)
    → is_nil s.selector ≡ false
    → merged_ingresses ls s.namespace ≡ some list
    → All IsComplete list
    → get_ingresses_for_service ls s ≡ ok (keep (reaches_service s) list)
unfolding get_ingresses_for_service
get_ingresses_for_service-exact ls s list n m h =
    ground (arith, m, n, select_for_service-keep s list h)

pub get_services_for_ingress-exact :
    (ls : Listers) (i : Ingress) (list : List Service)
    → ls.services_in i.namespace ≡ some list
    → IsComplete i
    → get_services_for_ingress ls i ≡ (
        if is_nil (keep (serves_ingress i) list)
        then err no_services
        else ok (keep (serves_ingress i) list))
unfolding get_services_for_ingress
get_services_for_ingress-exact ls i list m h = ground (arith, m, select_for_ingress-keep i list h)
