-- ===== src/Controller.antt =====
-- cloud/pkg/envoyingresscontroller/envoyingresscontroller.go: the state of the controller, and the
-- actions that change it. The two work queues are client-go's: the model records the keys that are
-- added to them, oldest first, of which the worker of the resource queue takes one out, and the messages
-- that are given to beehive. `resourceStoreLock` is
-- modelled, since some paths return without its unlock; the other mutexes are always released.
pub mod Dispatch
pub mod Sync
pub mod Events
pub mod Initiate
pub mod Startup
pub mod Invariant
pub mod Steps
pub mod Inserts
pub mod Loops
pub mod Safety
pub mod Sending
pub mod Waiting
pub mod Quiet
pub mod Handlers
pub mod Enqueued
pub mod Reach
pub mod Stored
pub mod Leak
pub mod Recipients
use envoyingresscontroller.Prelude.{
  ℕ, zero, suc, ◌-◌, Bool, true, false, ◌||◌, Option, none, some, List, [], ◌∷◌, ◌++◌, Text,
  TextSet, Map, lookup, discard, ltb, if◌then◌else◌, Error, Outcome, ok, err,
}
use envoyingresscontroller.Location.{LocationCache}
use envoyingresscontroller.Message.{Message, ContextMessageLayer}
use envoyingresscontroller.Resource.{Resource, envoy_resource_key_func}

-- EnvoyIngressController
pub record Controller : Type 0 where
  pub lc : LocationCache
  pub resource_store : Map Resource
  pub ingress_to_resource_names : Map TextSet
  pub ingress_node_groups : Map TextSet
  pub queue : List Text
  pub resource_queue : List Text
  pub message_layer : ContextMessageLayer
  pub sent : List (Text × Message)
  pub store_readers : ℕ
  pub store_writer : Bool

-- initializeFields
unfoldable pub initialize_fields : ContextMessageLayer → Controller
initialize_fields layer = record {
  lc = record { edge_nodes = []; node2group = []; group2node = [] };
  resource_store = [];
  ingress_to_resource_names = [];
  ingress_node_groups = [];
  queue = [];
  resource_queue = [];
  message_layer = layer;
  sent = [];
  store_readers = 0;
  store_writer = false;
}

-- What a call comes to: it returns, it returns an error, it waits for a lock, or it panics.
pub data Run {ℓ} (A : Type ℓ) : Type ℓ where
  returns : Controller → A → Run A
  fails : Controller → Error → Run A
  blocks : Controller → Run A
  panics : Run A

abbrev pub Action {ℓ} : Type ℓ → Type ℓ
Action A = Controller → Run A

infixl 5 ◌>>=◌ ◌>>◌
abbrev pub ◌>>=◌ {ℓ κ} : {A : Type ℓ} {B : Type κ} → Action A → (A → Action B) → Action B
(m >>= f) c = elim (m c) [
  | returns c' a ↦ f a c'
  | fails c' e ↦ fails c' e
  | blocks c' ↦ blocks c'
  | panics ↦ panics
]

abbrev pub ◌>>◌ {ℓ κ} : {A : Type ℓ} {B : Type κ} → Action A → Action B → Action B
m >> k = m >>= λ _. k

abbrev pub pure {ℓ} : {A : Type ℓ} → A → Action A
pure a c = returns c a

abbrev pub fail {ℓ} : {A : Type ℓ} → Error → Action A
fail e c = fails c e

abbrev pub gets {ℓ} : {A : Type ℓ} → (Controller → A) → Action A
gets f c = returns c (f c)

abbrev pub modify : (Controller → Controller) → Action (Unit {0})
modify f c = returns (f c) tt

-- The part of the code that has no effect on the controller.
abbrev pub lift {ℓ} : {A : Type ℓ} → Outcome A → Action A
lift (ok a) c = returns c a
lift (err e) c = fails c e
lift Outcome.panics c = panics

-- resourceStoreLock.Lock and Unlock, RLock and RUnlock.
unfoldable pub lock : Action (Unit {0})
lock c =
    if c.store_writer || ltb 0 c.store_readers
    then blocks c
    else returns (record c { store_writer = true }) tt

abbrev pub unlock : Action (Unit {0})
unlock c = returns (record c { store_writer = false }) tt

unfoldable pub read_lock : Action (Unit {0})
read_lock c =
    if c.store_writer
    then blocks c
    else returns (record c { store_readers = suc c.store_readers }) tt

abbrev pub read_unlock : Action (Unit {0})
read_unlock c = returns (record c { store_readers = c.store_readers - 1 }) tt

-- enqueueEnvoyResource of a resource that is not nil.
unfoldable pub enqueue_envoy_resource : Resource → Controller → Controller
enqueue_envoy_resource r c = record c {
  resource_queue = c.resource_queue ++ envoy_resource_key_func r ∷ [];
}

-- Get of the resource queue, which hands out a key once however often it was added.
abbrev pub take_key : Text → Controller → Controller
take_key name c = record c { resource_queue = discard name c.resource_queue }

-- The resource names of an ingress: a missing key is a nil map.
unfoldable pub names_of : Text → Map TextSet → TextSet
names_of key m = elim (lookup key m) [ none ↦ [] | some names ↦ names ]
