-- ===== src/Controller/Reach.antt =====
-- The controller as a transition system: the start, the workers' calls, which return or fail, and the handlers of
-- the informers' events, in any order, each with listers of its own.
use envoyingresscontroller.Prelude.{
  Bool, ◌≡◌, refl, subst, ◌⊎◌, inl, inr, some, Text, lookup, Error, arith, contains,
}
use envoyingresscontroller.Kube.{Listers}
use envoyingresscontroller.Message.{ContextMessageLayer}
use envoyingresscontroller.Resource.{Resource, Spec}
use envoyingresscontroller.External.{External}
use envoyingresscontroller.Controller.{Controller, Run, returns, fails, initialize_fields, names_of}
use envoyingresscontroller.Controller.Dispatch.{process_next_envoy_resource_work_item}
use envoyingresscontroller.Controller.Sync.{sync_envoy_ingress}
use envoyingresscontroller.Controller.Initiate.{start_up}
use envoyingresscontroller.Controller.Startup.{start_up-Settles}
use envoyingresscontroller.Controller.Handlers.{Event, handle, handle-Settles}
use envoyingresscontroller.Controller.Invariant.{IsValid, IsFree}
use envoyingresscontroller.Controller.Safety.{Settles, sync_envoy_ingress-Settles}
use envoyingresscontroller.Controller.Sending.{process_next_envoy_resource_work_item-ends}

-- A call that has come back, with an error or without, in that state.
abbrev pub EndsIn : Run (Unit {0}) → Controller → Type 0
EndsIn r c' = (r ≡ returns c' tt) ⊎ ((e : Error) × (r ≡ fails c' e))

-- One call or one event: what Run does before it starts the workers, a worker's call, or a handler. A
-- worker of the resource queue takes a key that is stored out of the queue, and puts it back when its
-- call fails.
pub data Step (d : External) (c : Controller) : Controller → Type 0 where
  ingress_synced :
      {c' : Controller} (ls : Listers) (key : Text)
      → EndsIn (sync_envoy_ingress ls d key c) c'
      → Step d c c'
  started_up :
      {c' : Controller} (deep_equal : Spec → Spec → Bool) (ls : Listers)
      → EndsIn (start_up deep_equal ls d c) c'
      → Step d c c'
  resource_synced :
      {c' : Controller} (name : Text) (r : Resource)
      → lookup name c.resource_store ≡ some r
      → EndsIn (process_next_envoy_resource_work_item d name c) c'
      → Step d c c'
  handled :
      {c' : Controller} (ls : Listers) (ev : Event) → EndsIn (handle ls d ev c) c' → Step d c c'

pub data Reach (d : External) (c : Controller) : Controller → Type 0 where
  here : Reach d c c
  next : {t u : Controller} → Reach d c t → Step d t u → Reach d c u

Settles-EndsIn :
    (r : Run (Unit {0})) (c' : Controller) → Settles r → EndsIn r c' → IsValid c' × IsFree c'
Settles-EndsIn r c' s (inl e) = subst Settles e s
Settles-EndsIn r c' s (inr (f, e)) = subst Settles e s

pub Step-IsValid :
    (d : External) {c c' : Controller} → Step d c c' → IsValid c × IsFree c → IsValid c' × IsFree c'
Step-IsValid d {c} {c'} (ingress_synced ls key e) (v, f) =
    Settles-EndsIn (sync_envoy_ingress ls d key c) c' (sync_envoy_ingress-Settles ls d key c v f) e
Step-IsValid d {c} {c'} (started_up deep_equal ls e) h =
    Settles-EndsIn (start_up deep_equal ls d c) c' (start_up-Settles deep_equal ls d c h) e
Step-IsValid d {c} {c'} (resource_synced name r s e) (v, f) =
    let (t, p, v', f', _) = process_next_envoy_resource_work_item-ends d name r c s v f in
    Settles-EndsIn (process_next_envoy_resource_work_item d name c) c' (rw p (v', f')) e
Step-IsValid d {c} {c'} (handled ls ev e) h =
    Settles-EndsIn (handle ls d ev c) c' (handle-Settles ls d ev c h) e

pub initialize_fields-IsValid :
    (layer : ContextMessageLayer)
    → IsValid (initialize_fields layer) × IsFree (initialize_fields layer)
unfolding initialize_fields lookup names_of contains
initialize_fields-IsValid layer = (
  record {
    keyed = λ k r p. cc;
    named = λ i k p. absurd (ground arith);
    unique = λ i j k p q. absurd (ground arith);
    queued = λ k r p e. cc;
  },
  record { no_writer = refl; no_reader = refl },
)

-- In every state that the controller reaches from its initial state by starting up, by workers' calls and by
-- events, where each call for a resource takes the key of a stored one out of the queue, each resource is
-- stored under its key, each name that an ingress keeps is stored and referred to, no two ingresses keep
-- one name, the key of each resource without references is waiting in the resource queue,
-- and the lock of the store is free.
pub Reach-IsValid :
    (d : External) (layer : ContextMessageLayer) (c : Controller)
    → Reach d (initialize_fields layer) c
    → IsValid c × IsFree c
Reach-IsValid d layer c here = initialize_fields-IsValid layer
Reach-IsValid d layer c (next {t} r s) = Step-IsValid d s (Reach-IsValid d layer t r)
