-- ===== src/Controller/Leak.antt =====
-- envoyingresscontroller.go: a resource that two ingresses share in `syncEnvoyIngress`.
use envoyingresscontroller.Prelude.{
  true, false, ◌≡◌, refl, ◌∙◌, some, Text, lookup, add, remove, contains, arith, lookup-put,
  contains-add, eq_refl,
}
use envoyingresscontroller.Resource.{Resource, envoy_resource_key_func}
use envoyingresscontroller.Controller.{Controller, returns, names_of, ◌>>=◌}
use envoyingresscontroller.Controller.Sync.{insert_resource, delete_ingress_resources}
use envoyingresscontroller.Controller.Invariant.{IsValid, IsFree}
use envoyingresscontroller.Controller.Inserts.{insert_resource-IsValid}
use envoyingresscontroller.Controller.Loops.{All-contains, IsReleasable, release_loop-Releases}
use envoyingresscontroller.Controller.Safety.{forget-IsValid, released}

-- Deleting an ingress leaves every resource alone whose name it does not keep.
pub delete_ingress_resources-unkept :
    (key n : Text) (c : Controller)
    → IsValid c
    → IsFree c
    → contains n (names_of key c.ingress_to_resource_names) ≡ false
    → (c' : Controller) × (delete_ingress_resources key c ≡ returns c' tt)
      × (lookup n c'.resource_store ≡ lookup n c.resource_store)
unfolding delete_ingress_resources
delete_ingress_resources-unkept key n c v f u =
    let names = names_of key c.ingress_to_resource_names in
    let forgotten = record c {
      ingress_to_resource_names = remove key c.ingress_to_resource_names;
    } in
    let (c', e, _, _, frame) =
      release_loop-Releases key names forgotten (forget-IsValid key c v)
        (record { no_writer = f.no_writer; no_reader = f.no_reader })
        (All-contains (IsReleasable forgotten) names (released key c v)) in
    rw (e, ◌>>=◌)
      (
        record c' { ingress_to_resource_names = remove key c'.ingress_to_resource_names },
        refl,
        frame n u,
      )

-- Inserting a resource whose key is stored refers to the ingress and keeps no name for it.
insert_stored :
    (key : Text) (r old : Resource) (c : Controller)
    → lookup (envoy_resource_key_func r) c.resource_store ≡ some old
    → let c' = insert_resource key r c in
      ((r' : Resource) × (lookup (envoy_resource_key_func r) c'.resource_store ≡ some r')
        × (contains key r'.ingress_ref ≡ true))
      × (c'.ingress_to_resource_names ≡ c.ingress_to_resource_names)
      × (c'.store_readers ≡ c.store_readers)
      × (c'.store_writer ≡ c.store_writer)
unfolding insert_resource
insert_stored key r old c s =
    let n = envoy_resource_key_func r in
    let r' = record old {
      ingress_ref = add key old.ingress_ref;
      spec = r.spec;
      resource_version = r.resource_version;
    } in
    rw (s, insert_resource)
      (
        (
          r',
          ground (arith, lookup-put n n r' c.resource_store, eq_refl n),
          ground (arith, contains-add key key old.ingress_ref, eq_refl key),
        ),
        refl,
        refl,
        refl,
      )

-- When an ingress that does not keep a resource's name is given a resource that is stored already, and the ingress
-- is deleted afterwards, the resource stays in the store with its reference to the deleted ingress.
pub shared_resource_leaks :
    (key : Text) (r old : Resource) (c : Controller)
    → IsValid c
    → IsFree c
    → lookup (envoy_resource_key_func r) c.resource_store ≡ some old
    → contains (envoy_resource_key_func r) (names_of key c.ingress_to_resource_names) ≡ false
    → (c' : Controller) × (delete_ingress_resources key (insert_resource key r c) ≡ returns c' tt)
      × ((r' : Resource) × (lookup (envoy_resource_key_func r) c'.resource_store ≡ some r')
          × (contains key r'.ingress_ref ≡ true))
shared_resource_leaks key r old c v f s u =
    let ((r', p, q), names, readers, writer) = insert_stored key r old c s in
    let (c', e, same) =
      delete_ingress_resources-unkept key (envoy_resource_key_func r) (insert_resource key r c)
        (insert_resource-IsValid key r c v)
        (record { no_writer = writer ∙ f.no_writer; no_reader = readers ∙ f.no_reader })
        (rw names u) in
    (c', e, (r', same ∙ p, q))
