-- ===== src/Controller/Loops.antt =====
-- envoyingresscontroller.go: the two loops of `syncEnvoyIngress` that take the lock in every round, and
-- the lock and the store after them.
use envoyingresscontroller.Prelude.{
  Bool, true, false, ◌≡◌, refl, ap, ◌∙◌, Option, none, some, List, [], ◌∷◌, Text, TextSet, Map,
  lookup, put, contains, ◌==◌, eq_refl, lookup-put, arith, All, Bool-cases, inl, inr,
}
use envoyingresscontroller.Resource.{Resource}
use envoyingresscontroller.Controller.{Controller, Run, returns, names_of, lock, ◌>>=◌}
use envoyingresscontroller.Controller.Sync.{
  without_ref, release_resource, release_loop, retire_stored, retire_loop, is_fresh,
}
use envoyingresscontroller.Controller.Invariant.{IsValid, IsFree, OnlyKeeper, forget_name-names}
use envoyingresscontroller.Controller.Steps.{release_resource-IsValid, retire_resource-IsValid}

-- A free lock is taken.
pub lock_free : (c : Controller) → IsFree c → lock c ≡ returns (record c { store_writer = true }) tt
unfolding lock
lock_free c f = ground arith

-- What every element of a set satisfies holds of the list.
pub All-contains {ℓ} :
    (P : Text → Type ℓ) (s : TextSet) → ((k : Text) → contains k s ≡ true → P k) → All P s
unfolding contains
All-contains P [] h = tt
All-contains P (j ∷ s) h =
    (h j (ground (arith, eq_refl j)), All-contains P s (λ k p. h k (ground arith)))

-- The result of a loop.
abbrev pub Finishes : Controller → Run (Unit {0}) → Type 0
Finishes c r = (c' : Controller) × (r ≡ returns c' tt) × IsValid c' × IsFree c'

-- The result of the loop over the names of a deleted ingress, with what it leaves alone.
abbrev pub Releases : List Text → Controller → Run (Unit {0}) → Type 0
Releases names c r =
    (c' : Controller) × (r ≡ returns c' tt)
    × IsValid c'
    × IsFree c'
    × ((k : Text)
        → contains k names ≡ false
        → lookup k c'.resource_store ≡ lookup k c.resource_store)

-- A name of a deleted ingress: it is stored, and no ingress keeps it.
abbrev pub IsReleasable : Controller → Text → Type 0
IsReleasable c n =
    ((r : Resource) × (lookup n c.resource_store ≡ some r))
    × ((i : Text) → contains n (names_of i c.ingress_to_resource_names) ≡ false)

pub store_writer-IsValid :
    (b : Bool) (c : Controller) → IsValid c → IsValid (record c { store_writer = b })
store_writer-IsValid b c v = record {
  keyed = v.keyed;
  named = v.named;
  unique = v.unique;
  queued = v.queued;
}

-- What one round leaves alone, and what it puts into the store.
release_effect :
    (key n : Text) (r : Resource) (c : Controller)
    → let c' = release_resource key n r c in
      (c'.ingress_to_resource_names ≡ c.ingress_to_resource_names)
      × (c'.store_readers ≡ c.store_readers)
      × (c'.resource_store ≡ put n (without_ref key r) c.resource_store)
unfolding release_resource
release_effect key n r c = ground arith

stored-put :
    (n k : Text) (r' : Resource) (store : Map Resource)
    → (r : Resource) × (lookup k store ≡ some r)
    → (r : Resource) × (lookup k (put n r' store) ≡ some r)
stored-put n k r' store (r, p) = elim (Bool-cases (n == k)) [
  | inl e ↦ (r', ground (arith, lookup-put n k r' store))
  | inr e ↦ (r, ground (arith, lookup-put n k r' store))
]

release-IsReleasable :
    (key n : Text) (r : Resource) (c : Controller) (k : Text)
    → IsReleasable c k
    → IsReleasable
        (record (release_resource key n r (record c { store_writer = true })) {
          store_writer = false;
        })
        k
release-IsReleasable key n r c k (s, u) =
    let (same, _, store) = release_effect key n r (record c { store_writer = true }) in
    (rw store (stored-put n k (without_ref key r) c.resource_store s), λ i. rw same (u i))

All-map {ℓ κ} :
    {P : Text → Type ℓ} {Q : Text → Type κ}
    → ((k : Text) → P k → Q k)
    → (s : List Text) → All P s
    → All Q s
All-map f [] h = tt
All-map f (k ∷ s) h = (f k h.0, All-map f s h.1)

contains-tail : (n k : Text) (s : List Text) → contains k (n ∷ s) ≡ false → contains k s ≡ false
unfolding contains
contains-tail n k s p = ground arith

contains-head : (n k : Text) (s : List Text) → contains k (n ∷ s) ≡ false → (n == k) ≡ false
unfolding contains
contains-head n k s p = ground arith

lookup-put_ne :
    (n k : Text) (r : Resource) (store : Map Resource)
    → (n == k) ≡ false
    → lookup k (put n r store) ≡ lookup k store
lookup-put_ne n k r store p = ground (arith, lookup-put n k r store)

pub release_loop-Releases :
    (key : Text) (names : List Text) (c : Controller)
    → IsValid c
    → IsFree c
    → All (IsReleasable c) names
    → Releases names c (release_loop key names c)
unfolding release_loop
release_loop-Releases key [] c v f h = (c, refl, v, f, λ k p. refl)
release_loop-Releases key (n ∷ names) c v f h =
    let ((r, s), u) = h.0 in
    let taken = record c { store_writer = true } in
    let after = record (release_resource key n r taken) { store_writer = false } in
    let (_, readers, store) = release_effect key n r taken in
    let (c', e, v', f', frame) =
      release_loop-Releases key names after
        (store_writer-IsValid false (release_resource key n r taken)
          (release_resource-IsValid key n r taken (store_writer-IsValid true c v) s u))
        (record { no_writer = refl; no_reader = readers ∙ f.no_reader })
        (All-map (release-IsReleasable key n r c) names h.1) in
    rw (lock_free c f, ◌>>=◌, s)
      (
        c',
        e,
        v',
        f',
        λ k p.
            frame k (contains-tail n k names p)
            ∙ ap (lookup k) store
            ∙ lookup-put_ne n k (without_ref key r) c.resource_store (contains-head n k names p),
      )

-- A stale name: no other ingress keeps it.
retire_effect :
    (key n : Text) (o : Option Resource) (c : Controller)
    → (retire_stored key n o c).store_readers ≡ c.store_readers
unfolding retire_stored
retire_effect key n none c = refl
retire_effect key n (some r) c = ground arith

retire_stored-OnlyKeeper :
    (key n : Text) (o : Option Resource) (c : Controller) (k : Text)
    → OnlyKeeper key c.ingress_to_resource_names k
    → OnlyKeeper key (retire_stored key n o c).ingress_to_resource_names k
unfolding retire_stored
retire_stored-OnlyKeeper key n none c k only = only
retire_stored-OnlyKeeper key n (some r) c k only =
    λ i p. ground (arith, only i, forget_name-names key n i k c.ingress_to_resource_names)

retire_stored-IsValid :
    (key n : Text) (o : Option Resource) (c : Controller)
    → IsValid c
    → lookup n c.resource_store ≡ o
    → OnlyKeeper key c.ingress_to_resource_names n
    → IsValid (retire_stored key n o c)
unfolding retire_stored
retire_stored-IsValid key n none c v s only = v
retire_stored-IsValid key n (some r) c v s only = retire_resource-IsValid key n r c v s only

pub retire_loop-Finishes :
    (key : Text) (rs : List Resource) (names : List Text) (c : Controller)
    → IsValid c
    → IsFree c
    → All (OnlyKeeper key c.ingress_to_resource_names) names
    → Finishes c (retire_loop key rs names c)
unfolding retire_loop
retire_loop-Finishes key rs [] c v f h = (c, refl, v, f)
retire_loop-Finishes key rs (n ∷ names) c v f h = elim (Bool-cases (is_fresh n rs)) [
  | inl e ↦ rw e (retire_loop-Finishes key rs names c v f h.1)
  | inr e ↦
      let taken = record c { store_writer = true } in
      let stored = lookup n c.resource_store in
      rw (e, lock_free c f, ◌>>=◌)
        (retire_loop-Finishes key rs names
          (record (retire_stored key n stored taken) { store_writer = false })
          (store_writer-IsValid false (retire_stored key n stored taken)
            (retire_stored-IsValid key n stored taken (store_writer-IsValid true c v) refl h.0))
          (record { no_writer = refl; no_reader = retire_effect key n stored taken ∙ f.no_reader })
          (All-map (retire_stored-OnlyKeeper key n stored taken) names h.1))
]
