-- ===== src/Matching/Agreement.antt =====
-- envoyingresscontroller.go: `getIngressesForService` beside `getServicesForIngress`, which has the same
-- body over another lister.
use envoyingresscontroller.Prelude.{
  Bool, true, false, ◌≡◌, refl, sym, ap, ◌∙◌, some, List, [], ◌∷◌, keep, All, is_nil, eq_iff, arith,
  ok, ◌↔◌, subst,
}
use mathlib.Core.List.{Memᴰ}
use envoyingresscontroller.Kube.{Listers, Ingress, Service}
use envoyingresscontroller.Matching.{
  is_envoy_ingress, merged_ingresses, get_ingresses_for_service, get_services_for_ingress,
}
use envoyingresscontroller.Matching.Sound.{
  IsComplete, reaches_service, serves_ingress, get_ingresses_for_service-exact,
  get_services_for_ingress-exact,
}

module _ {ℓ} {A : Type ℓ} (p : A → Bool) (x : A) where
  abbrev kept : Bool → A → List A → List A
  kept b y rest = elim b [ true ↦ y ∷ rest | false ↦ rest ]

  sound_step :
      (y : A) (rest : List A) (b : Bool)
      → p y ≡ b
      → (Memᴰ x rest → p x ≡ true)
      → Memᴰ x (kept b y rest)
      → p x ≡ true
  sound_step y rest true e f (Memᴰ.head i) = ap p i ∙ e
  sound_step y rest true e f (Memᴰ.tail n) = f n
  sound_step y rest false e f n = f n

  complete_step :
      (y : A) (ys rest : List A) (b : Bool)
      → p y ≡ b
      → p x ≡ true
      → (Memᴰ x ys → Memᴰ x rest)
      → Memᴰ x (y ∷ ys)
      → Memᴰ x (kept b y rest)
  complete_step y ys rest true e h f (Memᴰ.head i) = Memᴰ.head i
  complete_step y ys rest true e h f (Memᴰ.tail n) = Memᴰ.tail (f n)
  complete_step y ys rest false e h f (Memᴰ.head i) =
      (let no : true ≡ false = sym h ∙ ap p i ∙ e in absurd (ground arith))
  complete_step y ys rest false e h f (Memᴰ.tail n) = f n

  -- An element of the kept ones passes the test.
  keep_sound : (xs : List A) → Memᴰ x (keep p xs) → p x ≡ true
  keep_sound [] m = elim m [ ]
  keep_sound (y ∷ ys) m = sound_step y (keep p ys) (p y) refl (keep_sound ys) m

  -- An element that passes the test is kept.
  keep_complete : (xs : List A) → Memᴰ x xs → p x ≡ true → Memᴰ x (keep p xs)
  keep_complete [] m h = elim m [ ]
  keep_complete (y ∷ ys) m h =
      complete_step y ys (keep p ys) (p y) refl h (λ n. keep_complete ys n h) m

returned_services :
    (ls : Listers) (i : Ingress) (list services : List Service)
    → ls.services_in i.namespace ≡ some list
    → IsComplete i
    → get_services_for_ingress ls i ≡ ok services
    → services ≡ keep (serves_ingress i) list
returned_services ls i list services m h e =
    ground (arith, get_services_for_ingress-exact ls i list m h)

returned_ingresses :
    (ls : Listers) (s : Service) (list ingresses : List Ingress)
    → is_nil s.selector ≡ false
    → merged_ingresses ls s.namespace ≡ some list
    → All IsComplete list
    → get_ingresses_for_service ls s ≡ ok ingresses
    → ingresses ≡ keep (reaches_service s) list
returned_ingresses ls s list ingresses n m h e =
    ground (arith, get_ingresses_for_service-exact ls s list n m h)

-- What the two tests share.
same_test :
    (s : Service) (i : Ingress)
    → is_envoy_ingress i ≡ true
    → reaches_service s i ≡ serves_ingress i s
same_test s i h = ground (arith, eq_iff s.namespace i.namespace, eq_iff i.namespace s.namespace)

-- For an ingress of the controller's class and a service with a selector, both in the listers of the other's namespace, all
-- ingresses there with their paths and services set: when both searches return lists, the service is among the services of
-- the ingress if and only if the ingress is among the ingresses of the service.
pub get_ingresses_for_service-agrees :
    (ls : Listers) (s : Service) (i : Ingress) (list ingresses : List Ingress)
    (all services : List Service)
    → is_nil s.selector ≡ false
    → is_envoy_ingress i ≡ true
    → merged_ingresses ls s.namespace ≡ some list
    → All IsComplete list
    → IsComplete i
    → Memᴰ i list
    → ls.services_in i.namespace ≡ some all
    → Memᴰ s all
    → get_ingresses_for_service ls s ≡ ok ingresses
    → get_services_for_ingress ls i ≡ ok services
    → Memᴰ s services ↔ Memᴰ i ingresses
get_ingresses_for_service-agrees ls s i list ingresses all services n c m hl hi mi a ms es ei =
    let ks = returned_services ls i all services a hi ei in
    let ki = returned_ingresses ls s list ingresses n m hl es in
    let same = same_test s i c in
    (
      (λ d. subst (Memᴰ i) (sym ki) (
          keep_complete (reaches_service s) i list mi
            (same ∙ keep_sound (serves_ingress i) s all (subst (Memᴰ s) ks d)))),
      (λ d. subst (Memᴰ s) (sym ks) (
          keep_complete (serves_ingress i) s all ms
            (sym same ∙ keep_sound (reaches_service s) i list (subst (Memᴰ i) ki d)))),
    )
