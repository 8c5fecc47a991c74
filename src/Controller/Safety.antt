-- ===== src/Controller/Safety.antt =====
-- envoyingresscontroller.go: `syncEnvoyIngress` as a whole, the state and the lock of the store when it
-- comes back.
use envoyingresscontroller.Prelude.{
  true, false, ◌≡◌, refl, ◌∙◌, List, [], ◌∷◌, Text, remove, contains, eq_iff, arith, Option-cases,
  Bool-cases, inl, inr, Outcome, ok, err,
}
use envoyingresscontroller.Kube.{Listers, Ingress, V1beta1Ingress, Answer, found, not_found, failed}
use envoyingresscontroller.Convert.{to_v1_ingress}
use envoyingresscontroller.Matching.{is_envoy_ingress}
use envoyingresscontroller.Resource.{Resource}
use envoyingresscontroller.External.{External}
use envoyingresscontroller.Controller.{
  Controller, Run, returns, fails, blocks, panics, names_of, lift, ◌>>=◌,
}
use envoyingresscontroller.Controller.Sync.{
  envoy_resources, delete_ingress_resources, ensure_names, set_node_groups, insert_loop,
  insert_resource, store_resources, sync_present, sync_answer, sync_envoy_ingress,
}
use envoyingresscontroller.Controller.Invariant.{
  IsValid, IsFree, OnlyKeeper, names_of-remove, contains-nil,
}
use envoyingresscontroller.Controller.Inserts.{insert_loop-IsValid, names_of-ensure_names}
use envoyingresscontroller.Controller.Loops.{
  lock_free, All-contains, IsReleasable, store_writer-IsValid, release_loop-Releases,
  retire_loop-Finishes,
}

-- The call comes back, or the process ends; where it comes back, the resources are valid and the lock
-- is free.
abbrev pub Settles : Run (Unit {0}) → Type 0
Settles (returns c a) = IsValid c × IsFree c
Settles (fails c e) = IsValid c × IsFree c
Settles (blocks c) = ⊥
Settles panics = Unit {0}

pub forget-IsValid :
    (key : Text) (c : Controller)
    → IsValid c
    → IsValid (record c { ingress_to_resource_names = remove key c.ingress_to_resource_names })
forget-IsValid key c v =
    let names = c.ingress_to_resource_names in
    record {
      keyed = v.keyed;
      named = λ i k p. v.named i k (kept i k p);
      unique = λ i j k p q. v.unique i j k (kept i k p) (kept j k q);
      queued = v.queued;
    }
  where
    kept :
        (i k : Text)
        → contains k (names_of i (remove key c.ingress_to_resource_names)) ≡ true
        → contains k (names_of i c.ingress_to_resource_names) ≡ true
    kept i k p = ground (arith, names_of-remove key i c.ingress_to_resource_names, contains-nil k)

pub released :
    (key : Text) (c : Controller)
    → IsValid c
    → (n : Text) → contains n (names_of key c.ingress_to_resource_names) ≡ true
    → IsReleasable
        (record c { ingress_to_resource_names = remove key c.ingress_to_resource_names })
        n
released key c v n p =
    let (r, s, _) = v.named key n p in
    (
      (r, s),
      λ i. ground (
        arith,
        names_of-remove key i c.ingress_to_resource_names,
        contains-nil n,
        v.unique i key n,
        p,
        eq_iff key i,
      ),
    )

delete_ingress_resources-Settles :
    (key : Text) (c : Controller) → IsValid c → IsFree c → Settles (delete_ingress_resources key c)
unfolding delete_ingress_resources
delete_ingress_resources-Settles key c v f =
    let names = names_of key c.ingress_to_resource_names in
    let forgotten = record c {
      ingress_to_resource_names = remove key c.ingress_to_resource_names;
    } in
    let (c', e, v', f', _) =
      release_loop-Releases key names forgotten (forget-IsValid key c v)
        (record { no_writer = f.no_writer; no_reader = f.no_reader })
        (All-contains (IsReleasable forgotten) names (released key c v)) in
    rw (e, ◌>>=◌)
      (forget-IsValid key c' v', record { no_writer = f'.no_writer; no_reader = f'.no_reader })

pub ensure_names_effect :
    (key : Text) (c : Controller)
    → let c' = ensure_names key c in
      (c'.resource_store ≡ c.resource_store)
      × (c'.resource_queue ≡ c.resource_queue)
      × (c'.store_readers ≡ c.store_readers)
      × (c'.store_writer ≡ c.store_writer)
unfolding ensure_names
ensure_names_effect key c = ground arith

pub ensure_names-IsValid : (key : Text) (c : Controller) → IsValid c → IsValid (ensure_names key c)
ensure_names-IsValid key c v =
    let (store, queue, _, _) = ensure_names_effect key c in
    record {
      keyed = rw store v.keyed;
      named = λ i k p. rw store (v.named i k (rw (names_of-ensure_names key i c) at p));
      unique = λ i j k p q.
          v.unique i j k (rw (names_of-ensure_names key i c) at p)
            (rw (names_of-ensure_names key j c) at q);
      queued = rw (store, queue) v.queued;
    }

insert_resource_effect :
    (key : Text) (r : Resource) (c : Controller)
    → (insert_resource key r c).store_readers ≡ c.store_readers
unfolding insert_resource
insert_resource_effect key r c = ground arith

insert_loop_effect :
    (key : Text) (rs : List Resource) (c : Controller)
    → (insert_loop key rs c).store_readers ≡ c.store_readers
unfolding insert_loop
insert_loop_effect key [] c = refl
insert_loop_effect key (r ∷ rs) c =
    insert_loop_effect key rs (insert_resource key r c) ∙ insert_resource_effect key r c

store_resources-Settles :
    (key : Text) (ingress : Ingress) (rs : List Resource) (c : Controller)
    → IsValid c
    → IsFree c
    → Settles (store_resources key ingress rs c)
unfolding store_resources
store_resources-Settles key ingress rs c v f =
    let stale = names_of key c.ingress_to_resource_names in
    let ensured = ensure_names key c in
    let (_, _, readers, writer) = ensure_names_effect key c in
    let (retired, e, v', f') =
      retire_loop-Finishes key rs stale ensured (ensure_names-IsValid key c v)
        (record { no_writer = writer ∙ f.no_writer; no_reader = readers ∙ f.no_reader })
        (All-contains (OnlyKeeper key ensured.ingress_to_resource_names) stale
          (λ k p i q. v.unique i key k (rw (names_of-ensure_names key i c) at q) p)) in
    let grouped = set_node_groups key ingress retired in
    let taken = record grouped { store_writer = true } in
    rw (e, ◌>>=◌, lock_free grouped (record { no_writer = f'.no_writer; no_reader = f'.no_reader }))
      (
        store_writer-IsValid false (insert_loop key rs taken) (
            insert_loop-IsValid key rs taken (record {
              keyed = v'.keyed;
              named = v'.named;
              unique = v'.unique;
              queued = v'.queued;
            })),
        record { no_writer = refl; no_reader = insert_loop_effect key rs taken ∙ f'.no_reader },
      )

sync_present-Settles :
    (ls : Listers) (d : External) (key : Text) (ingress : Ingress) (c : Controller)
    → IsValid c
    → IsFree c
    → Settles (sync_present ls d key ingress c)
unfolding sync_present
sync_present-Settles ls d key ingress c v f = elim (Bool-cases (is_envoy_ingress ingress)) [
  | inr e ↦ rw e (v, f)
  | inl e ↦ rw (e, ◌>>=◌) (made (envoy_resources ls d ingress))
]
  where
    made :
        (o : Outcome (List Resource))
        → Settles ((lift o >>= λ resources. store_resources key ingress resources) c)
    made (ok rs) = store_resources-Settles key ingress rs c v f
    made (err e) = (v, f)
    made Outcome.panics = tt

sync_answer-Settles :
    (ls : Listers) (d : External) (key : Text) (a : Answer Ingress) (b : Answer V1beta1Ingress)
    (c : Controller)
    → IsValid c
    → IsFree c
    → Settles (sync_answer ls d key a b c)
unfolding sync_answer
sync_answer-Settles ls d key (found ingress) b c v f = sync_present-Settles ls d key ingress c v f
sync_answer-Settles ls d key failed b c v f = tt
sync_answer-Settles ls d key not_found (found beta) c v f =
    sync_present-Settles ls d key (to_v1_ingress beta) c v f
sync_answer-Settles ls d key not_found failed c v f = (v, f)
sync_answer-Settles ls d key not_found not_found c v f = delete_ingress_resources-Settles key c v f

-- Whatever the listers answer and whatever the key is, from a valid state with the lock of the store
-- free, `syncEnvoyIngress` never waits for that lock, and where it returns, with an error or
-- without, the state is valid and the lock is free again.
pub sync_envoy_ingress-Settles :
    (ls : Listers) (d : External) (key : Text) (c : Controller)
    → IsValid c
    → IsFree c
    → Settles (sync_envoy_ingress ls d key c)
unfolding sync_envoy_ingress
sync_envoy_ingress-Settles ls d key c v f = elim (Option-cases (d.split_meta_namespace_key key)) [
  | inl e ↦ rw (e, ◌>>=◌) (v, f)
  | inr ((namespace, name), e) ↦
      rw (e, ◌>>=◌)
        (sync_answer-Settles ls d key (ls.get_ingress namespace name)
          (ls.get_v1beta1_ingress namespace name) c v f)
]
