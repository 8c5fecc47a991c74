-- ===== src/Controller/Waiting.antt =====
-- envoyingresscontroller.go: the read lock that `syncEnvoyResource` keeps, and the call that then waits.
use envoyingresscontroller.Prelude.{
  ℕ, suc, ◌≡◌, refl, ◌⊎◌, inl, inr, ◌∙◌, true, none, some, List, [], ◌∷◌, Text, lookup, arith,
  resource_missing, ok, Bool-cases,
}
use envoyingresscontroller.Kube.{Listers, Ingress, found}
use envoyingresscontroller.Matching.{is_envoy_ingress}
use envoyingresscontroller.Resource.{Resource}
use envoyingresscontroller.External.{External}
use envoyingresscontroller.Controller.{Controller, returns, fails, blocks, lock, ◌>>=◌, names_of}
use envoyingresscontroller.Controller.Dispatch.{sync_envoy_resource}
use envoyingresscontroller.Controller.Sync.{
  envoy_resources, is_fresh, retire_loop, ensure_names, set_node_groups, store_resources,
  sync_present, sync_answer, sync_envoy_ingress,
}
use envoyingresscontroller.Controller.Invariant.{IsFree}
use envoyingresscontroller.Controller.Safety.{ensure_names_effect}
use envoyingresscontroller.Controller.Sending.{read_lock_free}

lock_taken : (c : Controller) (n : ℕ) → c.store_readers ≡ suc n → lock c ≡ blocks c
unfolding lock
lock_taken c n e = ground arith

-- With the read lock held for ever, the loop over the stale names waits or has none to retire.
retire_loop-waits :
    (key : Text) (rs : List Resource) (names : List Text) (c : Controller) (n : ℕ)
    → c.store_readers ≡ suc n
    → (retire_loop key rs names c ≡ returns c tt) ⊎ (retire_loop key rs names c ≡ blocks c)
unfolding retire_loop
retire_loop-waits key rs [] c n e = inl refl
retire_loop-waits key rs (name ∷ names) c n e = elim (Bool-cases (is_fresh name rs)) [
  | inl f ↦ rw f (retire_loop-waits key rs names c n e)
  | inr f ↦ inr (rw (f, lock_taken c n e, ◌>>=◌) refl)
]

store_resources-waits :
    (key : Text) (ingress : Ingress) (rs : List Resource) (c : Controller) (n : ℕ)
    → c.store_readers ≡ suc n
    → (c' : Controller) × (store_resources key ingress rs c ≡ blocks c')
unfolding store_resources
store_resources-waits key ingress rs c n e =
    let stale = names_of key c.ingress_to_resource_names in
    let ensured = ensure_names key c in
    let (_, _, readers, _) = ensure_names_effect key c in
    elim (retire_loop-waits key rs stale ensured n (readers ∙ e)) [
      | inr w ↦ (ensured, rw (w, ◌>>=◌) refl)
      | inl w ↦
          let grouped = set_node_groups key ingress ensured in
          (grouped, rw (w, ◌>>=◌, lock_taken grouped n (readers ∙ e)) refl)
    ]

-- `syncEnvoyResource` of a resource that is not stored returns an error and keeps the read lock. When the next call is
-- `syncEnvoyIngress` of an ingress in the lister, of the controller's class, from which resources can be
-- made, then that call waits for the lock of the store.
pub sync_envoy_resource-missing :
    (ls : Listers) (d : External) (missing key namespace name : Text) (ingress : Ingress)
    (rs : List Resource) (c : Controller)
    → lookup missing c.resource_store ≡ none
    → IsFree c
    → d.split_meta_namespace_key key ≡ some (namespace, name)
    → ls.get_ingress namespace name ≡ found ingress
    → is_envoy_ingress ingress ≡ true
    → envoy_resources ls d ingress ≡ ok rs
    → (c' : Controller) × (c'' : Controller) × (sync_envoy_resource d missing c
        ≡ fails c' resource_missing)
      × (sync_envoy_ingress ls d key c' ≡ blocks c'')
unfolding sync_envoy_resource sync_envoy_ingress sync_answer sync_present
sync_envoy_resource-missing ls d missing key namespace name ingress rs c s f es eg ec er =
    let kept = record c { store_readers = suc c.store_readers } in
    let (c'', w) = store_resources-waits key ingress rs kept c.store_readers refl in
    (kept, c'', rw (read_lock_free c f, ◌>>=◌, s), rw (es, eg, ec, er, ◌>>=◌) w)
