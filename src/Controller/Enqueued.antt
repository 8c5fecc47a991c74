-- ===== src/Controller/Enqueued.antt =====
-- envoyingresscontroller.go: the keys that the events on services and endpoints put into the queue.
use envoyingresscontroller.Prelude.{
  true, false, ◌≡◌, refl, sym, ap, ◌∙◌, some, List, [], ◌∷◌, ◌++◌, map, keep, All, is_nil, arith,
  Bool-cases, inl, inr,
}
use mathlib.Core.List.{append-nil, append_assoc}
use envoyingresscontroller.Kube.{Listers, Ingress, Service, Endpoints, found}
use envoyingresscontroller.Matching.{is_envoy_ingress, merged_ingresses}
use envoyingresscontroller.Matching.Sound.{
  IsComplete, reaches_service, get_ingresses_for_service-exact,
}
use envoyingresscontroller.External.{External}
use envoyingresscontroller.Controller.{Controller, returns, ◌>>=◌}
use envoyingresscontroller.Controller.Events.{
  enqueue, enqueue_all, object, deleted_object, add_service, delete_service, add_endpoint,
  delete_endpoint,
}
use envoyingresscontroller.Controller.Handlers.{
  handle, service_added, service_deleted, endpoint_added, endpoint_deleted,
}

enqueue-class :
    (d : External) (i : Ingress) (c : Controller)
    → is_envoy_ingress i ≡ true
    → enqueue d i c ≡ record c { queue = c.queue ++ d.key_func i ∷ [] }
unfolding enqueue
enqueue-class d i c h = rw (h, enqueue) refl

reaches-class : (s : Service) (i : Ingress) → reaches_service s i ≡ true → is_envoy_ingress i ≡ true
reaches-class s i h = ground arith

-- Every ingress that reaches the service is queued, in order.
enqueue_all-keep :
    (d : External) (s : Service) (list : List Ingress) (c : Controller)
    → enqueue_all d (keep (reaches_service s) list) c
      ≡ record c { queue = c.queue ++ map d.key_func (keep (reaches_service s) list) }
unfolding enqueue_all
enqueue_all-keep d s [] c = ap (λ q. record c { queue = q }) (sym (append-nil c.queue))
enqueue_all-keep d s (i ∷ list) c = elim (Bool-cases (reaches_service s i)) [
  | inr e ↦ rw (e, keep) (enqueue_all-keep d s list c)
  | inl e ↦
      rw (e, keep, enqueue-class d i c (reaches-class s i e))
        (enqueue_all-keep d s list (record c { queue = c.queue ++ d.key_func i ∷ [] })
          ∙ ap (λ q. record c { queue = q })
              (append_assoc c.queue (d.key_func i ∷ [])
                (map d.key_func (keep (reaches_service s) list))))
]

add_service-queued :
    (ls : Listers) (d : External) (s : Service) (list : List Ingress) (c : Controller)
    → is_nil s.selector ≡ false
    → merged_ingresses ls s.namespace ≡ some list
    → All IsComplete list
    → add_service ls d s c
      ≡ returns (record c { queue = c.queue ++ map d.key_func (keep (reaches_service s) list) }) tt
unfolding add_service
add_service-queued ls d s list c n m h =
    rw (get_ingresses_for_service-exact ls s list n m h, ◌>>=◌)
      (ap (λ c'. returns c' tt) (enqueue_all-keep d s list c))

-- A service with a selector is added or deleted, or endpoints of its name are; the listers have it, and give the ingresses of
-- its namespace, all with their paths and services set. Then the handler puts into the queue, in order, exactly the keys of those
-- ingresses of the controller's class in the namespace that send to the service, and changes nothing else.
pub handle-queued :
    (ls : Listers) (d : External) (s : Service) (e : Endpoints) (list : List Ingress)
    (c : Controller)
    → is_nil s.selector ≡ false
    → merged_ingresses ls s.namespace ≡ some list
    → All IsComplete list
    → ls.get_service e.namespace e.name ≡ found s
    → (c' : Controller) × (c'
        ≡ record c { queue = c.queue ++ map d.key_func (keep (reaches_service s) list) })
      × (handle ls d (service_added s) c ≡ returns c' tt)
      × (handle ls d (service_deleted (object s)) c ≡ returns c' tt)
      × (handle ls d (endpoint_added e) c ≡ returns c' tt)
      × (handle ls d (endpoint_deleted (object e)) c ≡ returns c' tt)
unfolding handle delete_service deleted_object add_endpoint delete_endpoint
handle-queued ls d s e list c n m h g =
    let added = add_service-queued ls d s list c n m h in
    (
      record c { queue = c.queue ++ map d.key_func (keep (reaches_service s) list) },
      refl,
      added,
      added,
      rw (g, add_endpoint) added,
      rw (g, delete_endpoint) added,
    )
