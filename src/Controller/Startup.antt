-- ===== src/Controller/Startup.antt =====
-- envoyingresscontroller.go: the state and the lock of the store after `initCache` and
-- `initiateEnvoyResources`.
use envoyingresscontroller.Prelude.{
  Bool, ◌≡◌, refl, ◌∙◌, Option, none, some, List, [], ◌∷◌, ◌++◌, map, Text, lookup, add, arith,
  Option-cases, Bool-cases, inl, inr, Outcome, ok, err, or_err, lister_failed,
}
use envoyingresscontroller.Kube.{Listers, Ingress, V1beta1Ingress}
use envoyingresscontroller.Resource.{Resource, Spec, envoy_resource_key_func}
use envoyingresscontroller.External.{External}
use envoyingresscontroller.Convert.{to_v1_ingress}
use envoyingresscontroller.Matching.{is_envoy_ingress}
use envoyingresscontroller.Controller.{
  Controller, Run, returns, fails, blocks, lift, enqueue_envoy_resource, Action, ◌>>=◌,
}
use envoyingresscontroller.Controller.Sync.{envoy_resources, create_resource}
use envoyingresscontroller.Controller.Events.{note_node_groups}
use envoyingresscontroller.Controller.Initiate.{
  init_cache, initiate_stored, initiate_loop, initiate_ingress, initiate_ingresses,
  initiate_envoy_resources, start_up, reset_names,
}
use envoyingresscontroller.Controller.Invariant.{
  IsValid, IsFree, add-nonempty, put-IsKeyed, put-IsNamed, put-IsQueued, IsQueued-append,
  contains-nil, names_of-put,
}
use envoyingresscontroller.Controller.Steps.{key-same, last-contains}
use envoyingresscontroller.Controller.Inserts.{create_resource-IsValid}
use envoyingresscontroller.Controller.Safety.{Settles}

-- A valid state with the lock free.
abbrev pub IsGood : Controller → Type 0
IsGood c = IsValid c × IsFree c

-- A stored resource gets a reference, and no other change, or a new message and a place in the queue.
initiate_stored-IsGood :
    (deep_equal : Spec → Spec → Bool) (key : Text) (r old : Resource) (c : Controller)
    → IsGood c
    → lookup (envoy_resource_key_func r) c.resource_store ≡ some old
    → IsGood (initiate_stored deep_equal key r old c)
unfolding initiate_stored enqueue_envoy_resource
initiate_stored-IsGood deep_equal key r old c (v, f) s =
    let n = envoy_resource_key_func r in
    let r' = record old { ingress_ref = add key old.ingress_ref } in
    let fresh = record r' { spec = r.spec; resource_version = r.resource_version } in
    let same : envoy_resource_key_func r' ≡ n = key-same r' old refl refl ∙ v.keyed n old s in
    let fresh_same : envoy_resource_key_func fresh ≡ n =
      key-same fresh old refl refl ∙ v.keyed n old s in
    let referred = add-nonempty key old.ingress_ref in
    elim (Bool-cases (deep_equal r.spec old.spec)) [
      | inl e ↦ rw e (
        record {
          keyed = put-IsKeyed c.resource_store n r' v.keyed same;
          named =
              put-IsNamed c.resource_store n r' c.ingress_to_resource_names v.named
                (λ i p. referred);
          unique = v.unique;
          queued = put-IsQueued c.resource_store n r' c.resource_queue v.queued (λ q. cc);
        },
        record { no_writer = f.no_writer; no_reader = f.no_reader },
      )
      | inr e ↦ rw e (
          rw fresh_same (
            record {
              keyed = put-IsKeyed c.resource_store n fresh v.keyed fresh_same;
              named =
                  put-IsNamed c.resource_store n fresh c.ingress_to_resource_names v.named
                    (λ i p. referred);
              unique = v.unique;
              queued =
                  put-IsQueued c.resource_store n fresh (c.resource_queue ++ n ∷ [])
                    (IsQueued-append c.resource_store c.resource_queue n v.queued)
                    (λ _. last-contains c.resource_queue n);
            },
            record { no_writer = f.no_writer; no_reader = f.no_reader },
          ))
    ]

create_resource-IsGood :
    (key : Text) (r : Resource) (c : Controller)
    → IsGood c
    → lookup (envoy_resource_key_func r) c.resource_store ≡ none
    → IsGood (create_resource key r c)
unfolding create_resource
create_resource-IsGood key r c (v, f) s = (
  create_resource-IsValid key r c v s,
  record { no_writer = f.no_writer; no_reader = f.no_reader },
)

initiate_loop-IsGood :
    (deep_equal : Spec → Spec → Bool) (key : Text) (rs : List Resource) (c : Controller)
    → IsGood c
    → IsGood (initiate_loop deep_equal key rs c)
unfolding initiate_loop
initiate_loop-IsGood deep_equal key [] c g = g
initiate_loop-IsGood deep_equal key (r ∷ rs) c g =
    elim (Option-cases (lookup (envoy_resource_key_func r) c.resource_store)) [
      | inl e ↦ rw e (
          initiate_loop-IsGood deep_equal key rs (create_resource key r c)
            (create_resource-IsGood key r c g e))
      | inr (old, e) ↦ rw e (
          initiate_loop-IsGood deep_equal key rs (initiate_stored deep_equal key r old c)
            (initiate_stored-IsGood deep_equal key r old c g e))
    ]

-- An ingress that keeps no names any more.
reset_names-IsGood : (key : Text) (c : Controller) → IsGood c → IsGood (reset_names key c)
reset_names-IsGood key c (v, f) = (
  record {
    keyed = v.keyed;
    named = λ i k p.
        v.named i k
          (ground (arith, names_of-put key i [] c.ingress_to_resource_names, contains-nil k));
    unique = λ i j k p q.
        v.unique i j k
          (ground (arith, names_of-put key i [] c.ingress_to_resource_names, contains-nil k))
          (ground (arith, names_of-put key j [] c.ingress_to_resource_names, contains-nil k));
    queued = v.queued;
  },
  record { no_writer = f.no_writer; no_reader = f.no_reader },
)

note_node_groups-IsGood :
    (key : Text) (i : Ingress) (c : Controller) → IsGood c → IsGood (note_node_groups key i c)
unfolding note_node_groups
note_node_groups-IsGood key i c (v, f) = (
  record { keyed = v.keyed; named = v.named; unique = v.unique; queued = v.queued },
  record { no_writer = f.no_writer; no_reader = f.no_reader },
)

-- One call after another.
pub then-Settles :
    (m k : Action (Unit {0})) (c : Controller)
    → Settles (m c)
    → ((c' : Controller) → IsGood c' → Settles (k c'))
    → Settles ((m >>= λ _. k) c)
then-Settles m k c h f = on (m c) h
  where
    on : (r : Run (Unit {0})) → Settles r → Settles (((λ _. r) >>= λ _. k) c)
    on (returns c' tt) g = f c' g
    on (fails c' e) g = g
    on (blocks c') g = g
    on Run.panics g = tt

initiate_ingress-Settles :
    (deep_equal : Spec → Spec → Bool) (ls : Listers) (d : External) (i : Ingress) (c : Controller)
    → IsGood c
    → Settles (initiate_ingress deep_equal ls d i c)
unfolding initiate_ingress
initiate_ingress-Settles deep_equal ls d i c g = elim (Bool-cases (is_envoy_ingress i)) [
  | inr e ↦ rw e g
  | inl e ↦ rw (e, ◌>>=◌) (made (envoy_resources ls d i))
]
  where
    made :
        (o : Outcome (List Resource))
        → Settles (
            (lift o >>= λ resources c'.
            returns
              (initiate_loop deep_equal (d.key_func i) resources (reset_names (d.key_func i) c'))
              tt)
              (note_node_groups (d.key_func i) i c))
    made (ok rs) =
        initiate_loop-IsGood deep_equal (d.key_func i) rs
          (reset_names (d.key_func i) (note_node_groups (d.key_func i) i c))
          (reset_names-IsGood (d.key_func i) (note_node_groups (d.key_func i) i c)
            (note_node_groups-IsGood (d.key_func i) i c g))
    made (err e) = note_node_groups-IsGood (d.key_func i) i c g
    made Outcome.panics = tt

initiate_ingresses-Settles :
    (deep_equal : Spec → Spec → Bool) (ls : Listers) (d : External) (is : List Ingress)
    (c : Controller)
    → IsGood c
    → Settles (initiate_ingresses deep_equal ls d is c)
unfolding initiate_ingresses
initiate_ingresses-Settles deep_equal ls d [] c g = g
initiate_ingresses-Settles deep_equal ls d (i ∷ is) c g =
    then-Settles (initiate_ingress deep_equal ls d i) (initiate_ingresses deep_equal ls d is) c
      (initiate_ingress-Settles deep_equal ls d i c g)
      (initiate_ingresses-Settles deep_equal ls d is)

initiate_envoy_resources-Settles :
    (deep_equal : Spec → Spec → Bool) (ls : Listers) (d : External) (c : Controller)
    → IsGood c
    → Settles (initiate_envoy_resources deep_equal ls d c)
unfolding initiate_envoy_resources
initiate_envoy_resources-Settles deep_equal ls d c g =
    listed ls.all_ingresses ls.all_v1beta1_ingresses
  where
    listed :
        (o : Option (List Ingress)) (b : Option (List V1beta1Ingress))
        → Settles (
            (lift (or_err o lister_failed) >>= λ is. lift (or_err b lister_failed) >>= λ betas.
            initiate_ingresses deep_equal ls d (is ++ map to_v1_ingress betas))
              c)
    listed none b = g
    listed (some is) none = g
    listed (some is) (some betas) =
        initiate_ingresses-Settles deep_equal ls d (is ++ map to_v1_ingress betas) c g

init_cache-Settles : (ls : Listers) (c : Controller) → IsGood c → Settles (init_cache ls c)
unfolding init_cache
init_cache-Settles ls c (v, f) = elim (Option-cases ls.all_nodes) [
  | inl e ↦ rw e (v, f)
  | inr (nodes, e) ↦ rw e (
    record { keyed = v.keyed; named = v.named; unique = v.unique; queued = v.queued },
    record { no_writer = f.no_writer; no_reader = f.no_reader },
  )
]

-- Whatever the listers answer, from a valid state with the lock of the store free, what `Run` does before it starts the
-- workers never waits for that lock, and where it returns, with an error or without, the state is
-- valid and the lock is free.
pub start_up-Settles :
    (deep_equal : Spec → Spec → Bool) (ls : Listers) (d : External) (c : Controller)
    → IsGood c
    → Settles (start_up deep_equal ls d c)
unfolding start_up
start_up-Settles deep_equal ls d c g =
    then-Settles (init_cache ls) (initiate_envoy_resources deep_equal ls d) c
      (init_cache-Settles ls c g) (initiate_envoy_resources-Settles deep_equal ls d)
