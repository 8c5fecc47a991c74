-- ===== src/Controller/Sending.antt =====
-- envoyingresscontroller.go: `syncEnvoyResource`, the state and the lock of the store when it comes back.
use envoyingresscontroller.Prelude.{
  suc, ◌-◌, ◌≡◌, refl, ap, ◌∙◌, Option, none, some, List, [], ◌∷◌, ◌++◌, Text, lookup,
  lookup-remove, eq_refl, is_nil, if◌then◌else◌, arith, Error,
}
use envoyingresscontroller.Resource.{Resource}
use envoyingresscontroller.External.{External}
use envoyingresscontroller.Controller.{
  Controller, Run, returns, fails, blocks, panics, ◌>>=◌, read_lock, take_key,
}
use envoyingresscontroller.Controller.Dispatch.{
  dispatch_resource, dispatch_to, drop_unreferenced, send_copy, result_of, nodes_to_send,
  sync_envoy_resource, operation_for, process_next_envoy_resource_work_item,
}
use envoyingresscontroller.Controller.Invariant.{IsValid, IsFree, IsQueued-append}
use envoyingresscontroller.Controller.Inserts.{drop_unreferenced-IsValid}

-- Dispatching changes only what was sent.
pub record IsSentOnly (c c' : Controller) : Type 0 where
  pub store : c'.resource_store ≡ c.resource_store
  pub names : c'.ingress_to_resource_names ≡ c.ingress_to_resource_names
  pub queue : c'.resource_queue ≡ c.resource_queue
  pub cache : c'.lc ≡ c.lc
  pub readers : c'.store_readers ≡ c.store_readers
  pub writer : c'.store_writer ≡ c.store_writer

dispatch_resource-IsSentOnly :
    (d : External) (r : Resource) (opr node : Text) (c : Controller)
    → IsSentOnly c (dispatch_resource d r opr node c).0
unfolding dispatch_resource
dispatch_resource-IsSentOnly d r opr node c = ground arith

IsSentOnly-trans : {c c' c'' : Controller} → IsSentOnly c c' → IsSentOnly c' c'' → IsSentOnly c c''
IsSentOnly-trans p q = record {
  store = q.store ∙ p.store;
  names = q.names ∙ p.names;
  queue = q.queue ∙ p.queue;
  cache = q.cache ∙ p.cache;
  readers = q.readers ∙ p.readers;
  writer = q.writer ∙ p.writer;
}

pub dispatch_to-IsSentOnly :
    (d : External) (r : Resource) (opr : Text) (nodes : List Text) (e : Option Error)
    (c : Controller)
    → IsSentOnly c (dispatch_to d r opr nodes e c).0
unfolding dispatch_to
dispatch_to-IsSentOnly d r opr [] e c = ground arith
dispatch_to-IsSentOnly d r opr (n ∷ ns) e c =
    IsSentOnly-trans (dispatch_resource-IsSentOnly d r opr n c)
      (dispatch_to-IsSentOnly d r opr ns _ (dispatch_resource d r opr n c).0)

IsSentOnly-IsValid : {c c' : Controller} → IsSentOnly c c' → IsValid c → IsValid c'
IsSentOnly-IsValid p v = record {
  keyed = rw p.store v.keyed;
  named = rw (p.store, p.names) v.named;
  unique = rw p.names v.unique;
  queued = rw (p.store, p.queue) v.queued;
}

pub read_lock_free :
    (c : Controller)
    → IsFree c
    → read_lock c ≡ returns (record c { store_readers = suc c.store_readers }) tt
unfolding read_lock
read_lock_free c f = rw f.no_writer

drop_unreferenced_effect :
    (name : Text) (r : Resource) (c : Controller)
    → ((drop_unreferenced name r c).store_readers ≡ c.store_readers)
      × ((drop_unreferenced name r c).store_writer ≡ c.store_writer)
unfolding drop_unreferenced
drop_unreferenced_effect name r c = ground arith

-- The run returns in a valid state with the lock free, where the resource of that name is this one.
abbrev pub EndsWith : Text → Option Resource → Run (Unit {0}) → Type 0
EndsWith name o r =
    (c' : Controller) × (r ≡ returns c' tt)
    × IsValid c'
    × IsFree c'
    × (lookup name c'.resource_store ≡ o)

-- What the worker makes of the end of a call.
requeued : Text → Run (Unit {0}) → Run (Unit {0})
requeued name (returns c a) = returns c tt
requeued name (fails c e) = returns (record c { resource_queue = c.resource_queue ++ name ∷ [] }) tt
requeued name (blocks c) = blocks c
requeued name panics = panics

requeued-item :
    (d : External) (name : Text) (c : Controller)
    → process_next_envoy_resource_work_item d name c
      ≡ requeued name (sync_envoy_resource d name (take_key name c))
unfolding process_next_envoy_resource_work_item requeued
requeued-item d name c = requeued-elim (sync_envoy_resource d name (take_key name c))
  where
    requeued-elim :
        (r : Run (Unit {0}))
        → elim r [
          | returns c' a ↦ returns c' tt
          | fails c' e ↦ returns (record c' { resource_queue = c'.resource_queue ++ name ∷ [] }) tt
          | blocks c' ↦ blocks c'
          | panics ↦ panics
        ]
          ≡ requeued name r
    requeued-elim (returns c' a) = refl
    requeued-elim (fails c' e) = refl
    requeued-elim (blocks c') = refl
    requeued-elim panics = refl

requeued-ends :
    (name : Text) (o : Option Resource) (p : Controller × Option Error)
    → IsValid p.0
    → IsFree p.0
    → lookup name p.0.resource_store ≡ o
    → EndsWith name o (requeued name (result_of p))
unfolding requeued
requeued-ends name o (c, none) v f l = (c, refl, v, f, l)
requeued-ends name o (c, some e) v f l = (
  record c { resource_queue = c.resource_queue ++ name ∷ [] },
  refl,
  record {
    keyed = v.keyed;
    named = v.named;
    unique = v.unique;
    queued = IsQueued-append c.resource_store c.resource_queue name v.queued;
  },
  record { no_writer = f.no_writer; no_reader = f.no_reader },
  l,
)

send_copy-ends :
    (d : External) (name : Text) (o : Option Resource) (r : Resource) (c : Controller)
    → IsValid c
    → IsFree c
    → lookup name c.resource_store ≡ o
    → EndsWith name o (requeued name (send_copy d r c))
unfolding send_copy
send_copy-ends d name o r c v f l =
    let nodes = nodes_to_send c.lc r.node_group [] in
    let only = dispatch_to-IsSentOnly d r (operation_for r) nodes none c in
    requeued-ends name o (dispatch_to d r (operation_for r) nodes none c)
      (IsSentOnly-IsValid only v)
      (record { no_writer = only.writer ∙ f.no_writer; no_reader = only.readers ∙ f.no_reader })
      (ap (lookup name) only.store ∙ l)

-- The store after the resource was left there or dropped.
dropped_store :
    (name : Text) (r : Resource) (c : Controller)
    → lookup name c.resource_store ≡ some r
    → lookup name (drop_unreferenced name r c).resource_store
      ≡ (if is_nil r.ingress_ref then none else some r)
unfolding drop_unreferenced
dropped_store name r c s = ground (arith, lookup-remove name name c.resource_store, eq_refl name, s)

-- From a valid state with the lock of the store free, the worker that takes the key of a stored resource from the queue returns,
-- whether the messages could be made or not, in a valid state with the lock free; the resource is still stored as it was if an
-- ingress refers to it, and is not stored otherwise.
pub process_next_envoy_resource_work_item-ends :
    (d : External) (name : Text) (r : Resource) (c : Controller)
    → lookup name c.resource_store ≡ some r
    → IsValid c
    → IsFree c
    → (c' : Controller) × (process_next_envoy_resource_work_item d name c ≡ returns c' tt)
      × IsValid c'
      × IsFree c'
      × (lookup name c'.resource_store ≡ (if is_nil r.ingress_ref then none else some r))
unfolding sync_envoy_resource
process_next_envoy_resource_work_item-ends d name r c s v f =
    let held = record (take_key name c) { store_readers = suc c.store_readers } in
    let dropped = drop_unreferenced name r held in
    let (readers, writer) = drop_unreferenced_effect name r held in
    let valid =
      drop_unreferenced-IsValid name r (record c { store_readers = suc c.store_readers })
        (record { keyed = v.keyed; named = v.named; unique = v.unique; queued = v.queued }) s in
    let free : IsFree (take_key name c) = record {
      no_writer = f.no_writer;
      no_reader = f.no_reader;
    } in
    rw (requeued-item d name c, read_lock_free (take_key name c) free, ◌>>=◌, s)
      (send_copy-ends d name (if is_nil r.ingress_ref then none else some r) r
        (record dropped { store_readers = dropped.store_readers - 1 })
        (record {
          keyed = valid.keyed;
          named = valid.named;
          unique = valid.unique;
          queued = valid.queued;
        })
        (record {
          no_writer = writer ∙ f.no_writer;
          no_reader = ap (λ n. n - 1) readers ∙ omega (arith, f.no_reader);
        })
        (dropped_store name r held s))
