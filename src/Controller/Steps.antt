-- ===== src/Controller/Steps.antt =====
-- envoyingresscontroller.go: the changes of `syncEnvoyIngress` that take references away, one by one.
use envoyingresscontroller.Prelude.{
  true, false, ◌≡◌, refl, ◌∙◌, some, List, [], ◌∷◌, ◌++◌, Text, lookup, contains, is_nil, eq_iff,
  eq_refl, arith, Bool-cases, inl, inr,
}
use envoyingresscontroller.Resource.{Resource, envoy_resource_key_func}
use envoyingresscontroller.Controller.{Controller, names_of}
use envoyingresscontroller.Controller.Sync.{
  without_ref, release_resource, forget_name, retire_resource,
}
use envoyingresscontroller.Controller.Invariant.{
  IsValid, OnlyKeeper, contains-last, put-IsKeyed, put-IsNamed, put-IsQueued, IsQueued-append,
  forget_name-names,
}

-- The key of a resource depends on its name and namespace alone.
pub key-same :
    (r s : Resource)
    → r.name ≡ s.name
    → r.namespace ≡ s.namespace
    → envoy_resource_key_func r ≡ envoy_resource_key_func s
unfolding envoy_resource_key_func
key-same r s p q = rw (p, q)

pub last-contains : (q : List Text) (n : Text) → contains n (q ++ n ∷ []) ≡ true
last-contains q n = ground (arith, contains-last n n q, eq_refl n)

-- The reference of a deleted ingress goes, if no ingress keeps the name any more.
pub release_resource-IsValid :
    (key n : Text) (r : Resource) (c : Controller)
    → IsValid c
    → lookup n c.resource_store ≡ some r
    → ((i : Text) → contains n (names_of i c.ingress_to_resource_names) ≡ false)
    → IsValid (release_resource key n r c)
unfolding release_resource
release_resource-IsValid key n r c v s u =
    let r' = without_ref key r in
    let same : envoy_resource_key_func r' ≡ n = key-same r' r refl refl ∙ v.keyed n r s in
    let keyed = put-IsKeyed c.resource_store n r' v.keyed same in
    let named =
      put-IsNamed c.resource_store n r' c.ingress_to_resource_names v.named (λ i p. cc (u i, p)) in
    elim (Bool-cases (is_nil r'.ingress_ref)) [
      | inl e ↦
          rw (e, same)
            (record {
              keyed = keyed;
              named = named;
              unique = v.unique;
              queued =
                  put-IsQueued c.resource_store n r' (c.resource_queue ++ n ∷ [])
                    (IsQueued-append c.resource_store c.resource_queue n v.queued)
                    (λ _. last-contains c.resource_queue n);
            })
      | inr e ↦ rw e (record {
        keyed = keyed;
        named = named;
        unique = v.unique;
        queued = put-IsQueued c.resource_store n r' c.resource_queue v.queued (λ p. cc (e, p));
      })
    ]

-- A stale reference of a live ingress goes, if that ingress is the only one that may keep the name.
pub retire_resource-IsValid :
    (key n : Text) (r : Resource) (c : Controller)
    → IsValid c
    → lookup n c.resource_store ≡ some r
    → OnlyKeeper key c.ingress_to_resource_names n
    → IsValid (retire_resource key n r c)
unfolding retire_resource
retire_resource-IsValid key n r c v s only =
    let r' = without_ref key r in
    let names = c.ingress_to_resource_names in
    let less = forget_name key n names in
    let same : envoy_resource_key_func r' ≡ n = key-same r' r refl refl ∙ v.keyed n r s in
    let keyed = put-IsKeyed c.resource_store n r' v.keyed same in
    elim (Bool-cases (is_nil r'.ingress_ref)) [
      | inl e ↦
          rw (e, same)
            (record {
              keyed = keyed;
              named =
                  put-IsNamed c.resource_store n r' less
                    (λ i k p. v.named i k (ground (arith, forget_name-names key n i k names)))
                    (λ i p.
                      ground (
                        arith,
                        forget_name-names key n i n names,
                        only i,
                        eq_refl n,
                        eq_iff key i,
                      ));
              unique = λ i j k p q.
                  v.unique i j k (ground (arith, forget_name-names key n i k names))
                    (ground (arith, forget_name-names key n j k names));
              queued =
                  put-IsQueued c.resource_store n r' (c.resource_queue ++ n ∷ [])
                    (IsQueued-append c.resource_store c.resource_queue n v.queued)
                    (λ _. last-contains c.resource_queue n);
            })
      | inr e ↦ rw e (record {
        keyed = keyed;
        named = put-IsNamed c.resource_store n r' names v.named (λ i p. e);
        unique = v.unique;
        queued = put-IsQueued c.resource_store n r' c.resource_queue v.queued (λ p. cc (e, p));
      })
    ]
