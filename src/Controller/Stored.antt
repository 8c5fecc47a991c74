-- ===== src/Controller/Stored.antt =====
-- envoyingresscontroller.go: what is stored for an ingress after `syncEnvoyIngress`.
use envoyingresscontroller.Prelude.{
  true, false, ◌==◌, ◌≡◌, refl, ap, ◌∙◌, Option, none, some, if◌then◌else◌, List, [], ◌∷◌, Text,
  lookup, put, add, contains, eq_refl, arith, Option-cases, inl, inr, ok, lookup-put, contains-add,
}
use envoyingresscontroller.Kube.{Listers, Ingress, found}
use envoyingresscontroller.Matching.{is_envoy_ingress}
use envoyingresscontroller.Resource.{Resource, envoy_resource_key_func}
use envoyingresscontroller.External.{External}
use envoyingresscontroller.Controller.{Controller, returns, names_of, ◌>>=◌, enqueue_envoy_resource}
use envoyingresscontroller.Controller.Sync.{
  envoy_resources, ensure_names, set_node_groups, create_resource, update_resource, insert_resource,
  insert_loop, store_resources, sync_present, sync_answer, sync_envoy_ingress,
}
use envoyingresscontroller.Controller.Invariant.{IsValid, IsFree, OnlyKeeper}
use envoyingresscontroller.Controller.Inserts.{names_of-ensure_names}
use envoyingresscontroller.Controller.Loops.{lock_free, All-contains, retire_loop-Finishes}
use envoyingresscontroller.Controller.Safety.{ensure_names_effect, ensure_names-IsValid}

-- The last of the resources that has the name as its key.
abbrev pub last_with : Text → List Resource → Option Resource
last_with n [] = none
last_with n (r ∷ rs) = elim (last_with n rs) [
  | some later ↦ some later
  | none ↦ if envoy_resource_key_func r == n then some r else none
]

-- What is stored under a name has the message and the version of the resource that was made, and the
-- ingress among its references.
abbrev pub IsHeld : Text → Controller → Text → Resource → Type 0
IsHeld key c n made =
    (r : Resource) × (lookup n c.resource_store ≡ some r)
    × (r.spec ≡ made.spec)
    × (r.resource_version ≡ made.resource_version)
    × (contains key r.ingress_ref ≡ true)

-- The resource that `insert_resource` puts in place.
insert_resource-put :
    (key : Text) (r : Resource) (c : Controller)
    → (r' : Resource) × ((insert_resource key r c).resource_store
        ≡ put (envoy_resource_key_func r) r' c.resource_store)
      × (r'.spec ≡ r.spec)
      × (r'.resource_version ≡ r.resource_version)
      × (contains key r'.ingress_ref ≡ true)
unfolding insert_resource create_resource update_resource enqueue_envoy_resource
insert_resource-put key r c =
    elim (Option-cases (lookup (envoy_resource_key_func r) c.resource_store)) [
      | inl e ↦ (
        record r { ingress_ref = add key r.ingress_ref },
        ground (arith, e),
        refl,
        refl,
        contains-add key key r.ingress_ref ∙ ground (arith, eq_refl key),
      )
      | inr (old, e) ↦ (
        record old {
          ingress_ref = add key old.ingress_ref;
          spec = r.spec;
          resource_version = r.resource_version;
        },
        ground (arith, e),
        refl,
        refl,
        contains-add key key old.ingress_ref ∙ ground (arith, eq_refl key),
      )
    ]

insert_resource-IsHeld :
    (key n : Text) (r : Resource) (c : Controller)
    → (envoy_resource_key_func r == n) ≡ true
    → IsHeld key (insert_resource key r c) n r
insert_resource-IsHeld key n r c e =
    let (r', stored, spec, version, ref) = insert_resource-put key r c in
    let m = envoy_resource_key_func r in
    (r', rw stored (ground (arith, lookup-put m n r' c.resource_store, e)), spec, version, ref)

insert_resource-other :
    (key n : Text) (r : Resource) (c : Controller)
    → (envoy_resource_key_func r == n) ≡ false
    → lookup n (insert_resource key r c).resource_store ≡ lookup n c.resource_store
insert_resource-other key n r c e =
    let (r', stored, _, _, _) = insert_resource-put key r c in
    let m = envoy_resource_key_func r in
    rw stored (ground (arith, lookup-put m n r' c.resource_store, e))

-- A name that no resource has is left as it was.
insert_loop-other :
    (key n : Text) (rs : List Resource) (c : Controller)
    → last_with n rs ≡ none
    → lookup n (insert_loop key rs c).resource_store ≡ lookup n c.resource_store
unfolding insert_loop
insert_loop-other key n [] c h = refl
insert_loop-other key n (r ∷ rs) c h =
    insert_loop-other key n rs (insert_resource key r c) (ground arith)
    ∙ insert_resource-other key n r c (ground arith)

insert_loop-IsHeld :
    (key n : Text) (rs : List Resource) (c : Controller) (made : Resource)
    → last_with n rs ≡ some made
    → IsHeld key (insert_loop key rs c) n made
unfolding insert_loop
insert_loop-IsHeld key n [] c made h = absurd (ground arith)
insert_loop-IsHeld key n (r ∷ rs) c made h = elim (Option-cases (last_with n rs)) [
  | inr (later, e) ↦ insert_loop-IsHeld key n rs (insert_resource key r c) made (ground arith)
  | inl e ↦
      let same : r ≡ made = ground arith in
      let (s, p, spec, version, ref) = insert_resource-IsHeld key n r c (ground arith) in
      (
        s,
        insert_loop-other key n rs (insert_resource key r c) e ∙ p,
        spec ∙ ap (λ t. t.spec) same,
        version ∙ ap (λ t. t.resource_version) same,
        ref,
      )
]

store_resources-IsHeld :
    (key n : Text) (ingress : Ingress) (rs : List Resource) (made : Resource) (c : Controller)
    → last_with n rs ≡ some made
    → IsValid c
    → IsFree c
    → (c' : Controller) × (store_resources key ingress rs c ≡ returns c' tt) × IsHeld key c' n made
unfolding store_resources
store_resources-IsHeld key n ingress rs made c h v f =
    let stale = names_of key c.ingress_to_resource_names in
    let ensured = ensure_names key c in
    let (_, _, readers, writer) = ensure_names_effect key c in
    let (retired, e, v', f') =
      retire_loop-Finishes key rs stale ensured (ensure_names-IsValid key c v)
        (record { no_writer = writer ∙ f.no_writer; no_reader = readers ∙ f.no_reader })
        (All-contains (OnlyKeeper key ensured.ingress_to_resource_names) stale
          (λ k p i q. v.unique i key k (rw (names_of-ensure_names key i c) at q) p)) in
    let grouped = set_node_groups key ingress retired in
    let taken = record grouped { store_writer = true } in
    (
      record (insert_loop key rs taken) { store_writer = false },
      rw
          (
            e,
            ◌>>=◌,
            lock_free grouped (record { no_writer = f'.no_writer; no_reader = f'.no_reader }),
          )
          refl,
      insert_loop-IsHeld key n rs taken made h,
    )

-- From a valid state with the lock of the store free, `syncEnvoyIngress` of a key that names an ingress in the lister, of the
-- controller's class, from which resources can be made returns, and afterwards, for every name that one of these resources has
-- as its key, what is stored under the name has the message and the version of the last such resource, and the ingress among
-- its references.
pub sync_envoy_ingress-IsHeld :
    (ls : Listers) (d : External) (key namespace name n : Text) (ingress : Ingress)
    (rs : List Resource) (made : Resource) (c : Controller)
    → last_with n rs ≡ some made
    → IsValid c
    → IsFree c
    → d.split_meta_namespace_key key ≡ some (namespace, name)
    → ls.get_ingress namespace name ≡ found ingress
    → is_envoy_ingress ingress ≡ true
    → envoy_resources ls d ingress ≡ ok rs
    → (c' : Controller) × (sync_envoy_ingress ls d key c ≡ returns c' tt) × IsHeld key c' n made
unfolding sync_envoy_ingress sync_answer sync_present
sync_envoy_ingress-IsHeld ls d key namespace name n ingress rs made c h v f es eg ec er =
    let (c', e, held) = store_resources-IsHeld key n ingress rs made c h v f in
    (c', rw (es, eg, ec, er, ◌>>=◌) e, held)
