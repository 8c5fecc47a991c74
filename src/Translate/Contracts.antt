-- ===== src/Translate/Contracts.antt =====
-- What the resources of one ingress promise each other: the names by which routes, clusters and
-- load assignments refer to one another.
use envoyingresscontroller.Prelude.{
  ℕ, suc, ◌+◌, Bool, true, false, ◌≡◌, ◌≢◌, refl, sym, ap, ◌∙◌, Option, none, some, List, [], ◌∷◌,
  ◌++◌, Text, codes, is_nil, any, lookup, replicate, if◌then◌else◌, ◌==◌, eq_iff, arith, Bool-cases,
  inl, inr, ok, TextSet, Map, join, get_text, put, lookup-put, Option-cases, ◌⊎◌, length, ◌||◌,
}
use envoyingresscontroller.Constants.{slash, dash}
use envoyingresscontroller.External.{External}
use envoyingresscontroller.Kube.{
  Listers, Ingress, IngressTls, HttpIngressPath, PathType, Service, ServicePort, Secret, found?,
}
use envoyingresscontroller.Envoy.{Route, LbEndpoint, ClusterLoadAssignment}
use envoyingresscontroller.Names.{cluster_load_assignment_name, PeerValidationContext}
use envoyingresscontroller.Builders.{edsconfig}
use envoyingresscontroller.Resource
use envoyingresscontroller.Translate.Clusters.{
  upstream_secret, upstream_peer, name_for_port, tls_secret_name, protocol_of,
}
use envoyingresscontroller.Translate.Routes.{
  hosts_onto, host_secrets, route_peer, route_cluster_name, port_routes, path_specifier,
}
use envoyingresscontroller.Translate.Endpoints.{endpoint_resource}

append-injective : (p s t : Text) → p ++ s ≡ p ++ t → s ≡ t
append-injective [] s t e = e
append-injective (b ∷ p) s t e = append-injective p s t (cc)

differ_after : (p s t : Text) (a b : ℕ) → a ≢ b → (p ++ a ∷ s) ≢ (p ++ b ∷ t)
differ_after p s t a b h e = h (let f : a ∷ s ≡ b ∷ t = append-injective p (a ∷ s) (b ∷ t) e in cc)

-- The load assignment that is made for a service never has the name under which the cluster of one of its ports asks
-- EDS for it: after the namespace, the one has a dash where the other has a slash.
pub edsconfig-unserved :
    (d : External) (i : Ingress) (groups : TextSet) (lbs : List LbEndpoint) (cluster : Text)
    (s : Service) (p : ServicePort)
    → (a : ClusterLoadAssignment) × ((endpoint_resource d i groups s lbs).spec
        ≡ Resource.endpoint a)
      × ((edsconfig cluster s p).service_name ≢ a.cluster_name)
unfolding edsconfig cluster_load_assignment_name endpoint_resource join
edsconfig-unserved d i groups lbs cluster s p = (
  _,
  refl,
  elim (Bool-cases (p.name == [])) [
    | inl e ↦ rw e (differ_after s.namespace s.name s.name slash dash (λ q. cc))
    | inr e ↦ rw e (differ_after s.namespace (s.name ++ slash ∷ p.name) s.name slash dash (λ q. cc))
  ],
)

-- Whether the clusters of a service are made with TLS to it.
abbrev pub is_secure : Text → Bool
is_secure protocol = protocol == codes "tls" || protocol == codes "h2"

hosts_onto-get :
    (host secret_name : Text) (hs : List Text) (m : Map Text)
    → is_nil host ≡ false
    → get_text host (hosts_onto secret_name hs m)
      ≡ (if any (λ h. h == host) hs then secret_name else get_text host m)
unfolding hosts_onto get_text
hosts_onto-get host secret_name [] m n = refl
hosts_onto-get host secret_name (h ∷ hs) m n = ground (
  arith,
  hosts_onto-get host secret_name hs (if is_nil h then m else put h secret_name m) n,
  lookup-put h host secret_name m,
  eq_iff h host,
)

-- Both readings of the TLS entries find the same name for a host.
host_secrets-get :
    (host : Text) (tls : List IngressTls) (m : Map Text)
    → is_nil host ≡ false
    → get_text host (host_secrets tls m) ≡ tls_secret_name host tls (get_text host m)
unfolding host_secrets tls_secret_name
host_secrets-get host [] m n = refl
host_secrets-get host (t ∷ ts) m n =
    host_secrets-get host ts (hosts_onto t.secret_name t.hosts m) n
    ∙ ap (tls_secret_name host ts) (hosts_onto-get host t.secret_name t.hosts m n)

-- The secret of a name, where no secret has the empty one.
secret_of_name :
    (ls : Listers) (i : Ingress) (name : Text)
    → found? (ls.get_secret i.namespace []) ≡ none
    → (if is_nil name then none else found? (ls.get_secret i.namespace name))
      ≡ found? (ls.get_secret i.namespace name)
secret_of_name ls i [] h = sym h
secret_of_name ls i (b ∷ t) h = refl

abbrev peer_from : Option Secret → Text → Option PeerValidationContext
peer_from none host = none
peer_from (some s) host = some (record { ca_certificate = some s; subject_name = host })

route_peer-from :
    (ls : Listers) (i : Ingress) (host : Text)
    → found? (ls.get_secret i.namespace []) ≡ none
    → route_peer ls i host
      ≡ peer_from (found? (ls.get_secret i.namespace (get_text host (host_secrets i.tls [])))) host
unfolding route_peer get_text
route_peer-from ls i host h = on (lookup host (host_secrets i.tls []))
  where
    on :
        (o : Option Text)
        → elim o [
          | none ↦ none
          | some name ↦ elim (found? (ls.get_secret i.namespace name)) [
            | none ↦ none
            | some s ↦ some (record { ca_certificate = some s; subject_name = host })
          ]
        ]
          ≡ peer_from (found? (ls.get_secret i.namespace (elim o [ none ↦ [] | some v ↦ v ]))) host
    on none = rw h refl
    on (some name) = elim (Option-cases (found? (ls.get_secret i.namespace name))) [
      | inl e ↦ rw e refl
      | inr (s, e) ↦ rw e refl
    ]

upstream_secret-named :
    (ls : Listers) (i : Ingress) (host : Text)
    → is_nil host ≡ false
    → found? (ls.get_secret i.namespace []) ≡ none
    → upstream_secret ls i host ≡ found? (ls.get_secret i.namespace (tls_secret_name host i.tls []))
unfolding upstream_secret
upstream_secret-named ls i host n h = rw n (secret_of_name ls i (tls_secret_name host i.tls []) h)

upstream_peer-from :
    (protocol host : Text) (o : Option Secret)
    → is_secure protocol ≡ true
    → upstream_peer protocol o host ≡ peer_from o host
unfolding upstream_peer
upstream_peer-from protocol host none h = rw h refl
upstream_peer-from protocol host (some s) h = rw h refl

same_peer :
    (ls : Listers) (i : Ingress) (host protocol : Text)
    → is_nil host ≡ false
    → found? (ls.get_secret i.namespace []) ≡ none
    → is_secure protocol ≡ true
    → route_peer ls i host ≡ upstream_peer protocol (upstream_secret ls i host) host
unfolding get_text lookup
same_peer ls i host protocol n none_named h =
    route_peer-from ls i host none_named
    ∙ ap (λ name. peer_from (found? (ls.get_secret i.namespace name)) host)
        (host_secrets-get host i.tls [] n)
    ∙ sym (
        upstream_peer-from protocol host (upstream_secret ls i host) h
        ∙ ap (λ o. peer_from o host) (upstream_secret-named ls i host n none_named))

upstream_peer-none : (protocol host : Text) → upstream_peer protocol none host ≡ none
unfolding upstream_peer
upstream_peer-none protocol host = elim (Bool-cases (is_secure protocol)) [
  | inl e ↦ rw e refl
  | inr e ↦ rw e refl
]

no_secret : (ls : Listers) (i : Ingress) (sni : Text) → i.tls ≡ [] → upstream_secret ls i sni ≡ none
unfolding upstream_secret tls_secret_name
no_secret ls i sni e =
    rw e (elim (Bool-cases (is_nil sni)) [ inl n ↦ rw n refl | inr n ↦ rw n refl ])

no_peer :
    (ls : Listers) (i : Ingress) (host sni protocol : Text)
    → i.tls ≡ []
    → route_peer ls i host ≡ upstream_peer protocol (upstream_secret ls i sni) sni
unfolding route_peer host_secrets lookup
no_peer ls i host sni protocol e =
    rw (no_secret ls i sni e, upstream_peer-none protocol sni) (rw e refl)

-- The route that a host gives a port of a service names the cluster that is made for that port with the host
-- for its SNI: when the service's protocol is tls or h2, or the ingress has no TLS entry, for a host that is not empty, no
-- secret having the empty name.
pub route_cluster_name-agrees :
    (ls : Listers) (d : External) (i : Ingress) (host : Text) (s : Service) (p : ServicePort)
    → is_nil host ≡ false
    → found? (ls.get_secret i.namespace []) ≡ none
    → (is_secure (protocol_of s) ≡ true) ⊎ (i.tls ≡ [])
    → route_cluster_name ls d i host s p ≡ name_for_port ls d i s host p
unfolding route_cluster_name name_for_port
route_cluster_name-agrees ls d i host s p n none_named (inl h) =
    rw (same_peer ls i host (protocol_of s) n none_named h) refl
route_cluster_name-agrees ls d i host s p n none_named (inr h) =
    rw (no_peer ls i host host (protocol_of s) h) refl

-- The last port of a service that has some.
abbrev pub last_port : ServicePort → List ServicePort → ServicePort
last_port p [] = p
last_port p (q ∷ qs) = last_port q qs

-- The route that a port asks for.
abbrev pub route_for : PathType → Text → Text → Route
route_for t path c = record { match = some (path_specifier t path c); cluster = some c }

-- All the routes of a path with a path type are the same, one for each of the service's ports, and send to the cluster of the last
-- port: in a service with a port, where each port has a cluster name.
pub port_routes-last :
    (ls : Listers) (d : External) (i : Ingress) (host : Text) (path : HttpIngressPath) (s : Service)
    (route : Route) (n : ℕ) (p : ServicePort) (ps : List ServicePort) (t : PathType)
    (name : ServicePort → Text)
    → path.path_type ≡ some t
    → ((q : ServicePort) → route_cluster_name ls d i host s q ≡ ok (name q))
    → port_routes ls d i host path s route n (p ∷ ps)
      ≡ ok (replicate (n + suc (length ps)) (route_for t path.path (name (last_port p ps))))
unfolding port_routes
port_routes-last ls d i host path s route n p [] t name ht hn = ground (arith, ht, hn p)
port_routes-last ls d i host path s route n p (q ∷ qs) t name ht hn = ground (
  arith,
  ht,
  hn p,
  port_routes-last ls d i host path s (route_for t path.path (name p)) (suc n) q qs t name ht hn,
)
