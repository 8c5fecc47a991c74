-- ===== src/Controller/Inserts.antt =====
-- envoyingresscontroller.go: the changes of `syncEnvoyIngress` that store resources, one by one, and the
-- one of `syncEnvoyResource` that takes a resource out.
use envoyingresscontroller.Prelude.{
  false, ◌&&◌, ◌||◌, ◌≡◌, refl, ◌∙◌, none, some, List, [], ◌∷◌, ◌++◌, Text, TextSet, Map, lookup,
  put, add, contains, is_nil, ◌==◌, eq_iff, lookup-put, lookup-remove, contains-add, arith,
  Option-cases, contains-discard, Bool-cases, inl, inr,
}
use envoyingresscontroller.Resource.{Resource, envoy_resource_key_func}
use envoyingresscontroller.Controller.{Controller, names_of, take_key}
use envoyingresscontroller.Controller.Dispatch.{drop_unreferenced}
use envoyingresscontroller.Controller.Sync.{
  ensure_names, create_resource, update_resource, insert_resource, insert_loop,
}
use envoyingresscontroller.Controller.Invariant.{
  IsUnique, IsValid, names_of-put, add-nonempty, put-IsKeyed, put-IsNamed, put-IsQueued,
  IsQueued-append,
}
use envoyingresscontroller.Controller.Steps.{key-same, last-contains}

-- Making an empty set of names for an ingress that has none changes nobody's names.
pub names_of-ensure_names :
    (key i : Text) (c : Controller)
    → names_of i (ensure_names key c).ingress_to_resource_names
      ≡ names_of i c.ingress_to_resource_names
unfolding ensure_names names_of
names_of-ensure_names key i c = elim (Option-cases (lookup key c.ingress_to_resource_names)) [
  | inl e ↦ ground (arith, e, lookup-put key i [] c.ingress_to_resource_names, eq_iff key i)
  | inr (names, e) ↦ ground (arith, e)
]

unstored :
    (key : Text) (r : Resource) (c : Controller)
    → IsValid c
    → lookup (envoy_resource_key_func r) c.resource_store ≡ none
    → (i : Text)
    → contains (envoy_resource_key_func r) (names_of i c.ingress_to_resource_names) ≡ false
unstored key r c v s i =
    elim (Bool-cases
      (contains (envoy_resource_key_func r) (names_of i c.ingress_to_resource_names))) [
        | inr e ↦ e
        | inl e ↦ let (t, u, w) = v.named i (envoy_resource_key_func r) e in cc (s, u)
      ]

-- The names after one more is kept for an ingress.
names-kept :
    (key n : Text) (names : Map TextSet) (i k : Text)
    → contains k (names_of i (put key (add n (names_of key names)) names))
      ≡ (key == i && n == k || contains k (names_of i names))
names-kept key n names i k = ground (
  arith,
  names_of-put key i (add n (names_of key names)) names,
  contains-add n k (names_of key names),
  eq_iff key i,
)

kept-IsUnique :
    (key n : Text) (names : Map TextSet)
    → IsUnique names
    → ((i : Text) → contains n (names_of i names) ≡ false)
    → IsUnique (put key (add n (names_of key names)) names)
kept-IsUnique key n names unique nobody i j k p q = ground (
  arith,
  names-kept key n names i k,
  names-kept key n names j k,
  eq_iff key i,
  eq_iff key j,
  eq_iff n k,
  nobody i,
  nobody j,
  unique i j k,
)

-- A resource under a key that is not stored.
pub create_resource-IsValid :
    (key : Text) (r : Resource) (c : Controller)
    → IsValid c
    → lookup (envoy_resource_key_func r) c.resource_store ≡ none
    → IsValid (create_resource key r c)
unfolding create_resource
create_resource-IsValid key r c v s =
    let n = envoy_resource_key_func r in
    let names = c.ingress_to_resource_names in
    let r' = record r { ingress_ref = add key r.ingress_ref } in
    let kept = add n (names_of key names) in
    let same : envoy_resource_key_func r' ≡ n = key-same r' r refl refl in
    let referred = add-nonempty key r.ingress_ref in
    let nobody : (i : Text) → contains n (names_of i names) ≡ false = unstored key r c v s in
    rw same (record {
      keyed = put-IsKeyed c.resource_store n r' v.keyed same;
      named = λ i k p. elim (Bool-cases (n == k)) [
        | inl e ↦ (r', ground (arith, lookup-put n k r' c.resource_store), referred)
        | inr e ↦
            let (old, t, u) = v.named i k (ground (arith, names-kept key n names i k)) in
            (old, ground (arith, lookup-put n k r' c.resource_store), u)
      ];
      unique = kept-IsUnique key n names v.unique nobody;
      queued =
          put-IsQueued c.resource_store n r' (c.resource_queue ++ n ∷ [])
            (IsQueued-append c.resource_store c.resource_queue n v.queued)
            (λ _. last-contains c.resource_queue n);
    })

-- A resource under a key that is stored already.
pub update_resource-IsValid :
    (key : Text) (r old : Resource) (c : Controller)
    → IsValid c
    → lookup (envoy_resource_key_func r) c.resource_store ≡ some old
    → IsValid (update_resource key r old c)
unfolding update_resource
update_resource-IsValid key r old c v s =
    let n = envoy_resource_key_func r in
    let r' = record old {
      ingress_ref = add key old.ingress_ref;
      spec = r.spec;
      resource_version = r.resource_version;
    } in
    let same : envoy_resource_key_func r' ≡ n = key-same r' old refl refl ∙ v.keyed n old s in
    let referred = add-nonempty key old.ingress_ref in
    rw same (record {
      keyed = put-IsKeyed c.resource_store n r' v.keyed same;
      named =
          put-IsNamed c.resource_store n r' c.ingress_to_resource_names v.named (λ i p. referred);
      unique = v.unique;
      queued =
          put-IsQueued c.resource_store n r' (c.resource_queue ++ n ∷ [])
            (IsQueued-append c.resource_store c.resource_queue n v.queued)
            (λ _. last-contains c.resource_queue n);
    })

pub insert_resource-IsValid :
    (key : Text) (r : Resource) (c : Controller) → IsValid c → IsValid (insert_resource key r c)
unfolding insert_resource
insert_resource-IsValid key r c v =
    elim (Option-cases (lookup (envoy_resource_key_func r) c.resource_store)) [
      | inl e ↦ rw (e, insert_resource) (create_resource-IsValid key r c v e)
      | inr (old, e) ↦ rw (e, insert_resource) (update_resource-IsValid key r old c v e)
    ]

pub insert_loop-IsValid :
    (key : Text) (rs : List Resource) (c : Controller) → IsValid c → IsValid (insert_loop key rs c)
unfolding insert_loop
insert_loop-IsValid key [] c v = v
insert_loop-IsValid key (r ∷ rs) c v =
    insert_loop-IsValid key rs (insert_resource key r c) (insert_resource-IsValid key r c v)

-- The worker takes a name out of the queue: a resource that no ingress refers to then leaves the store,
-- and no ingress keeps its name.
pub drop_unreferenced-IsValid :
    (n : Text) (r : Resource) (c : Controller)
    → IsValid c
    → lookup n c.resource_store ≡ some r
    → IsValid (drop_unreferenced n r (take_key n c))
unfolding drop_unreferenced
drop_unreferenced-IsValid n r c v s = elim (Bool-cases (is_nil r.ingress_ref)) [
  | inr e ↦ rw e (record {
    keyed = v.keyed;
    named = v.named;
    unique = v.unique;
    queued = λ k t p q. elim (Bool-cases (n == k)) [
      | inl same ↦ absurd (ground (arith, eq_iff n k, same, p, q, s, e))
      | inr other ↦ ground (arith, contains-discard n k c.resource_queue, v.queued k t p q, other)
    ];
  })
  | inl e ↦ rw e (record {
    keyed = λ k t p. v.keyed k t (ground (arith, lookup-remove n k c.resource_store));
    named = λ i k p.
        let (t, u, w) = v.named i k p in
        (t, ground (arith, lookup-remove n k c.resource_store, eq_iff n k, u, s), w);
    unique = v.unique;
    queued = λ k t p q.
        let was = v.queued k t (ground (arith, lookup-remove n k c.resource_store)) q in
        ground (
          arith,
          lookup-remove n k c.resource_store,
          contains-discard n k c.resource_queue,
          p,
          was,
        );
  })
]
