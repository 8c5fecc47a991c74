-- ===== src/Controller/Invariant.antt =====
-- What holds of the stored resources between two calls, and the parts of `syncEnvoyIngress` that keep
-- it, one for each change of the store.
use envoyingresscontroller.Prelude.{
  true, false, not, ◌&&◌, ◌||◌, ◌≡◌, refl, sym, subst, some, List, [], ◌∷◌, ◌++◌, Text, TextSet,
  Map, lookup, put, remove, add, discard, contains, is_nil, if◌then◌else◌, ◌==◌, eq_iff, lookup-put,
  lookup-remove, contains-discard, contains-append, arith, Option-cases, Bool-cases, inl, inr,
}
use envoyingresscontroller.Resource.{Resource, envoy_resource_key_func}
use envoyingresscontroller.Controller.{Controller, names_of}
use envoyingresscontroller.Controller.Sync.{forget_name}

-- A resource is stored under its own key.
abbrev pub IsKeyed : Map Resource → Type 0
IsKeyed store = (k : Text) (r : Resource) → lookup k store ≡ some r → envoy_resource_key_func r ≡ k

-- A name that an ingress keeps is stored, and some ingress refers to it.
abbrev pub IsNamed : Map TextSet → Map Resource → Type 0
IsNamed names store =
    (i k : Text)
    → contains k (names_of i names) ≡ true
    → (r : Resource) × (lookup k store ≡ some r) × (is_nil r.ingress_ref ≡ false)

-- No two ingresses keep one name.
abbrev pub IsUnique : Map TextSet → Type 0
IsUnique names =
    (i j k : Text)
    → contains k (names_of i names) ≡ true
    → contains k (names_of j names) ≡ true
    → i ≡ j

-- A resource that no ingress refers to is waiting in the queue whose worker deletes it.
abbrev pub IsQueued : Map Resource → List Text → Type 0
IsQueued store queue =
    (k : Text) (r : Resource)
    → lookup k store ≡ some r
    → is_nil r.ingress_ref ≡ true
    → contains k queue ≡ true

pub record IsValid (c : Controller) : Type 0 where
  pub keyed : IsKeyed c.resource_store
  pub named : IsNamed c.ingress_to_resource_names c.resource_store
  pub unique : IsUnique c.ingress_to_resource_names
  pub queued : IsQueued c.resource_store c.resource_queue

-- Nobody holds the lock of the store.
pub record IsFree (c : Controller) : Type 0 where
  pub no_writer : c.store_writer ≡ false
  pub no_reader : c.store_readers ≡ 0

-- Only that ingress, if any, keeps the name.
abbrev pub OnlyKeeper : Text → Map TextSet → Text → Type 0
OnlyKeeper key names n = (i : Text) → contains n (names_of i names) ≡ true → i ≡ key

pub names_of-put :
    (key i : Text) (v : TextSet) (m : Map TextSet)
    → names_of i (put key v m) ≡ (if key == i then v else names_of i m)
unfolding names_of
names_of-put key i v m = ground (arith, lookup-put key i v m)

pub names_of-remove :
    (key i : Text) (m : Map TextSet)
    → names_of i (remove key m) ≡ (if key == i then [] else names_of i m)
unfolding names_of
names_of-remove key i m = ground (arith, lookup-remove key i m)

pub contains-nil : (k : Text) → contains k [] ≡ false
unfolding contains
contains-nil k = refl

pub contains-last :
    (k n : Text) (q : List Text) → contains k (q ++ n ∷ []) ≡ (contains k q || n == k)
unfolding contains
contains-last k n q = ground (arith, contains-append k q (n ∷ []))

pub add-nonempty : (k : Text) (s : TextSet) → is_nil (add k s) ≡ false
unfolding add
add-nonempty k [] = refl
add-nonempty k (j ∷ s) = ground arith

module _ (store : Map Resource) (n : Text) (r' : Resource) where
  -- One resource is replaced by another of the same key.
  pub put-IsKeyed : IsKeyed store → envoy_resource_key_func r' ≡ n → IsKeyed (put n r' store)
  put-IsKeyed h e k r p = ground (arith, lookup-put n k r' store, h k r, eq_iff n k)

  pub put-IsNamed :
      (names : Map TextSet)
      → IsNamed names store
      → ((i : Text) → contains n (names_of i names) ≡ true → is_nil r'.ingress_ref ≡ false)
      → IsNamed names (put n r' store)
  put-IsNamed names h kept i k p = elim (Bool-cases (n == k)) [
    | inl e ↦ (
      r',
      ground (arith, lookup-put n k r' store),
      kept i (subst (λ t. contains t (names_of i names) ≡ true) (sym ((eq_iff n k).0 e)) p),
    )
    | inr e ↦ let (r, s, t) = h i k p in (r, ground (arith, lookup-put n k r' store), t)
  ]

  pub put-IsQueued :
      (queue : List Text)
      → IsQueued store queue
      → (is_nil r'.ingress_ref ≡ true → contains n queue ≡ true)
      → IsQueued (put n r' store) queue
  put-IsQueued queue h q k r p e = ground (arith, lookup-put n k r' store, h k r, eq_iff n k)

pub IsQueued-append :
    (store : Map Resource) (queue : List Text) (n : Text)
    → IsQueued store queue
    → IsQueued store (queue ++ n ∷ [])
IsQueued-append store queue n h k r p e = ground (arith, contains-last k n queue, h k r p e)

-- Before: names of others are the same and those of `key` are fewer.
pub forget_name-names :
    (key name i k : Text) (m : Map TextSet)
    → contains k (names_of i (forget_name key name m))
      ≡ (not (key == i && name == k) && contains k (names_of i m))
unfolding forget_name names_of
forget_name-names key name i k m = elim (Option-cases (lookup key m)) [
  | inl e ↦ ground (arith, e, eq_iff key i, contains-nil k)
  | inr (names, e) ↦ ground (
    arith,
    e,
    eq_iff key i,
    lookup-put key i (discard name names) m,
    contains-discard name k names,
  )
]
