-- ===== src/Edge/Keyed.antt =====
-- edge/pkg/envoycontrolplane/process.go: the maps of the five kinds over a run of the main loop.
use envoyingresscontroller.Prelude.{
  Bool, ◌≡◌, none, some, List, [], ◌∷◌, Text, Map, lookup, put, remove, ◌==◌, eq_iff, arith,
  Option-cases, Outcome-cases, subst, Bool-cases, inl, inr, lookup-put, lookup-remove,
}
use envoyingresscontroller.Message.{Message, insert_operation, delete_operation}
use envoyingresscontroller.Edge
use envoyingresscontroller.Edge.{
  Kind, EnvoyResource, Row, PerKind, at, set_at, everywhere, ControlPlane, kind_of,
  new_control_plane,
}
use envoyingresscontroller.Edge.Process.{
  EdgeExternal, parse_resource, decode_content, decode_deleted, insert_or_update_resource,
  delete_resource, Processed, returns, crashes, store_resource, insert_kind, insert_decoded,
  process_insert, forget_resource, delete_decoded, process_delete, process, run_envoy_control_plane,
  logged, returned, namespace_or_default,
}

-- A resource is stored under its own name.
abbrev pub KeepsNames : Map EnvoyResource → Type 0
KeepsNames m = (key : Text) (r : EnvoyResource) → lookup key m ≡ some r → r.name ≡ key

pub record IsKeyed (s : PerKind (Map EnvoyResource)) : Type 0 where
  pub secrets : KeepsNames s.secrets
  pub endpoints : KeepsNames s.endpoints
  pub clusters : KeepsNames s.clusters
  pub routes : KeepsNames s.routes
  pub listeners : KeepsNames s.listeners

IsKeyed-at : (k : Kind) (s : PerKind (Map EnvoyResource)) → IsKeyed s → KeepsNames (at k s)
IsKeyed-at Edge.secret s h = h.secrets
IsKeyed-at Edge.endpoint s h = h.endpoints
IsKeyed-at Edge.cluster s h = h.clusters
IsKeyed-at Edge.route s h = h.routes
IsKeyed-at Edge.listener s h = h.listeners

set_at-IsKeyed :
    (k : Kind) (m : Map EnvoyResource) (s : PerKind (Map EnvoyResource))
    → IsKeyed s
    → KeepsNames m
    → IsKeyed (set_at k m s)
set_at-IsKeyed Edge.secret m s h n = record {
  secrets = n;
  endpoints = h.endpoints;
  clusters = h.clusters;
  routes = h.routes;
  listeners = h.listeners;
}
set_at-IsKeyed Edge.endpoint m s h n = record {
  secrets = h.secrets;
  endpoints = n;
  clusters = h.clusters;
  routes = h.routes;
  listeners = h.listeners;
}
set_at-IsKeyed Edge.cluster m s h n = record {
  secrets = h.secrets;
  endpoints = h.endpoints;
  clusters = n;
  routes = h.routes;
  listeners = h.listeners;
}
set_at-IsKeyed Edge.route m s h n = record {
  secrets = h.secrets;
  endpoints = h.endpoints;
  clusters = h.clusters;
  routes = n;
  listeners = h.listeners;
}
set_at-IsKeyed Edge.listener m s h n = record {
  secrets = h.secrets;
  endpoints = h.endpoints;
  clusters = h.clusters;
  routes = h.routes;
  listeners = n;
}

put-KeepsNames :
    (r : EnvoyResource) (m : Map EnvoyResource) → KeepsNames m → KeepsNames (put r.name r m)
put-KeepsNames r m h key s p = ground (arith, lookup-put r.name key r m, h key s, eq_iff r.name key)

remove-KeepsNames : (n : Text) (m : Map EnvoyResource) → KeepsNames m → KeepsNames (remove n m)
remove-KeepsNames n m h key s p = ground (arith, lookup-remove n key m, h key s)

-- Whatever a method does, the maps stay keyed, and it does not look at the database for them.
abbrev Keeps : Processed → Type 0
Keeps (returns e r) = IsKeyed e.stores
Keeps crashes = Unit {0}

store_resource-IsKeyed :
    (k : Kind) (r : EnvoyResource) (e : ControlPlane)
    → IsKeyed e.stores
    → IsKeyed (store_resource k r e).stores
unfolding store_resource
store_resource-IsKeyed k r e h =
    set_at-IsKeyed k (put r.name r (at k e.stores)) e.stores h
      (put-KeepsNames r (at k e.stores) (IsKeyed-at k e.stores h))

insert_row-Keeps :
    (x : EdgeExternal) (k : Kind) (row : Row) (e : ControlPlane)
    → IsKeyed e.stores
    → Keeps (returned (insert_or_update_resource x k row e))
unfolding insert_or_update_resource
insert_row-Keeps x k row e h = elim (Bool-cases (x.database_accepts k row)) [
  | inl p ↦ rw (p, Keeps) h
  | inr p ↦ rw (p, Keeps) h
]

delete_row-Keeps :
    (x : EdgeExternal) (k : Kind) (row : Row) (e : ControlPlane)
    → IsKeyed e.stores
    → Keeps (returned (delete_resource x k row e))
unfolding delete_resource
delete_row-Keeps x k row e h = elim (Bool-cases (x.database_accepts k row)) [
  | inl p ↦ rw (p, Keeps) h
  | inr p ↦ rw (p, Keeps) h
]

insert_kind-Keeps :
    (x : EdgeExternal) (k : Kind) (m : Message) (key u b : Text) (e : ControlPlane)
    → IsKeyed e.stores
    → Keeps (insert_kind x k m key u b e)
unfolding insert_kind
insert_kind-Keeps x k m key u b e h = elim (Option-cases (x.unmarshal k b)) [
  | inl p ↦ rw (p, Keeps) h
  | inr (spec, p) ↦
      let r : EnvoyResource = record {
        name = key;
        namespace = namespace_or_default m;
        message = spec;
      } in
      rw (p, Keeps)
        (elim (Option-cases (x.json_message spec)) [
          | inl q ↦ rw (q, Keeps) (store_resource-IsKeyed k r e h)
          | inr (j, q) ↦
              rw (q, Keeps)
                (insert_row-Keeps x k (record { id = key; name = key; value = u; json_value = j })
                  (store_resource k r e) (store_resource-IsKeyed k r e h))
        ])
]

insert_decoded-Keeps :
    (x : EdgeExternal) (m : Message) (key t : Text) (decoded : Text × Text) (e : ControlPlane)
    → IsKeyed e.stores
    → Keeps (insert_decoded x m key t decoded e)
unfolding insert_decoded
insert_decoded-Keeps x m key t (u, b) e h = elim (Option-cases (kind_of t)) [
  | inl p ↦ rw (p, Keeps) h
  | inr (k, p) ↦ rw (p, Keeps) (insert_kind-Keeps x k m key u b e h)
]

delete_decoded-Keeps :
    (x : EdgeExternal) (key t : Text) (e : ControlPlane)
    → IsKeyed e.stores
    → Keeps (delete_decoded x key t e)
unfolding delete_decoded forget_resource
delete_decoded-Keeps x key t e h = elim (Option-cases (kind_of t)) [
  | inl p ↦ rw (p, Keeps) h
  | inr (k, p) ↦
      rw (p, Keeps)
        (delete_row-Keeps x k (record { id = key; name = key; value = []; json_value = [] })
          (forget_resource k key e)
          (set_at-IsKeyed k (remove key (at k e.stores)) e.stores h
            (remove-KeepsNames key (at k e.stores) (IsKeyed-at k e.stores h))))
]

process_insert-Keeps :
    (x : EdgeExternal) (m : Message) (e : ControlPlane)
    → IsKeyed e.stores
    → Keeps (process_insert x m e)
unfolding process_insert
process_insert-Keeps x m e h = elim (Option-cases (x.json_content m.content)) [
  | inl p ↦ rw (p, Keeps) h
  | inr (c, p) ↦
      rw (p, Keeps)
        (elim (Outcome-cases (parse_resource m.resource)) [
          | inr (inl (f, q)) ↦ rw (q, Keeps) h
          | inr (inr q) ↦ rw (q, Keeps) tt
          | inl ((key, t), q) ↦
              rw (q, Keeps)
                (elim (Outcome-cases (decode_content x m)) [
                  | inr (inl (f, s)) ↦ rw (s, Keeps) h
                  | inr (inr s) ↦ rw (s, Keeps) tt
                  | inl (decoded, s) ↦ rw (s, Keeps) (insert_decoded-Keeps x m key t decoded e h)
                ])
        ])
]

process_delete-Keeps :
    (x : EdgeExternal) (m : Message) (e : ControlPlane)
    → IsKeyed e.stores
    → Keeps (process_delete x m e)
unfolding process_delete
process_delete-Keeps x m e h = elim (Outcome-cases (parse_resource m.resource)) [
  | inr (inl (f, q)) ↦ rw (q, Keeps) h
  | inr (inr q) ↦ rw (q, Keeps) tt
  | inl ((key, t), q) ↦
      rw (q, Keeps)
        (elim (Outcome-cases (decode_deleted x m)) [
          | inr (inl (f, s)) ↦ rw (s, Keeps) h
          | inr (inr s) ↦ rw (s, Keeps) tt
          | inl (decoded, s) ↦ rw (s, Keeps) (delete_decoded-Keeps x key t e h)
        ])
]

logged-IsKeyed :
    (p : Processed) (e' : ControlPlane) → Keeps p → logged p ≡ some e' → IsKeyed e'.stores
logged-IsKeyed (returns e r) e' h q = let same : e ≡ e' = cc in subst (λ t. IsKeyed t.stores) same h
logged-IsKeyed crashes e' h q = cc

process-IsKeyed :
    (x : EdgeExternal) (m : Message) (e e' : ControlPlane)
    → IsKeyed e.stores
    → process x m e ≡ some e'
    → IsKeyed e'.stores
unfolding process
process-IsKeyed x m e e' h p = elim (Bool-cases (m.operation == insert_operation)) [
  | inl i ↦ logged-IsKeyed (process_insert x m e) e' (process_insert-Keeps x m e h) (rw i at p)
  | inr i ↦ elim (Bool-cases (m.operation == delete_operation)) [
    | inl j ↦
        logged-IsKeyed (process_delete x m e) e' (process_delete-Keeps x m e h) (rw (i, j) at p)
    | inr j ↦
        let q : some e ≡ some e' = rw (i, j) at p in
        let same : e ≡ e' = cc in subst (λ t. IsKeyed t.stores) same h
  ]
]

run-IsKeyed :
    (x : EdgeExternal) (ms : List Message) (e e' : ControlPlane)
    → IsKeyed e.stores
    → run_envoy_control_plane x ms e ≡ some e'
    → IsKeyed e'.stores
unfolding run_envoy_control_plane
run-IsKeyed x [] e e' h p = let same : e ≡ e' = cc in subst (λ t. IsKeyed t.stores) same h
run-IsKeyed x (m ∷ ms) e e' h p = elim (Option-cases (process x m e)) [
  | inl q ↦ absurd (let no : none ≡ some e' = rw (q, run_envoy_control_plane) at p in ground arith)
  | inr (c, q) ↦
      run-IsKeyed x ms c e' (process-IsKeyed x m e c h q) (rw (q, run_envoy_control_plane) at p)
]

-- Whatever messages come and whatever the decoders and the database answer, after a run of the main loop from a new control plane that no
-- message has crashed, every resource in the maps of the five kinds stands under its own name.
pub run_envoy_control_plane-IsKeyed :
    (x : EdgeExternal) (ms : List Message) (enable : Bool) (xds_addr xds_port node_name : Text)
    (e' : ControlPlane)
    → run_envoy_control_plane x ms (new_control_plane enable xds_addr xds_port node_name) ≡ some e'
    → IsKeyed e'.stores
unfolding new_control_plane lookup
run_envoy_control_plane-IsKeyed x ms enable xds_addr xds_port node_name e' p =
    run-IsKeyed x ms (new_control_plane enable xds_addr xds_port node_name) e'
      (record {
        secrets = λ k r q. cc;
        endpoints = λ k r q. cc;
        clusters = λ k r q. cc;
        routes = λ k r q. cc;
        listeners = λ k r q. cc;
      })
      p
