-- ===== src/Controller/Handlers.antt =====
-- envoyingresscontroller.go: the events that NewEnvoyIngressController registers its handlers for, and
-- the handler of each.
use envoyingresscontroller.Prelude.{
  List, Bool-cases, Option-cases, inl, inr, Outcome, ok, err, refl, arith,
}
use envoyingresscontroller.Kube
use envoyingresscontroller.Kube.{Listers, Ingress, V1beta1Ingress, Node, Service, Endpoints, found?}
use envoyingresscontroller.Convert.{to_v1_ingress}
use envoyingresscontroller.External.{External}
use envoyingresscontroller.Matching.{get_ingresses_for_service}
use envoyingresscontroller.Controller.{Controller, Action, lift, ◌>>=◌, modify}
use envoyingresscontroller.Controller.Events.{
  Deleted, object, tombstone, unexpected, deleted_object, enqueue_all, add_ingress, update_ingress,
  delete_ingress, add_v1beta1_ingress, update_v1beta1_ingress, delete_v1beta1_ingress, add_node,
  update_node, delete_node, add_service, update_service, delete_service, add_endpoint,
  update_endpoint, delete_endpoint, add_secret, update_secret, delete_secret, same_map,
  same_subsets,
}
use envoyingresscontroller.Controller.Quiet.{
  IsQuiet, IsQuiet-IsValid, IsQuiet-IsFree, IsQuiet-trans, enqueue_all-IsQuiet, add_ingress-IsQuiet,
  update_ingress-IsQuiet, delete_ingress-IsQuiet, add_node-IsQuiet, update_node-IsQuiet,
  delete_node-IsQuiet, add_secret-IsQuiet,
}
use envoyingresscontroller.Controller.Safety.{Settles}
use envoyingresscontroller.Controller.Startup.{IsGood, then-Settles}

pub data Event : Type 0 where
  ingress_added : Ingress → Event
  ingress_updated : Ingress → Ingress → Event
  ingress_deleted : Deleted Ingress → Event
  v1beta1_ingress_added : V1beta1Ingress → Event
  v1beta1_ingress_updated : V1beta1Ingress → V1beta1Ingress → Event
  v1beta1_ingress_deleted : Deleted V1beta1Ingress → Event
  node_added : Node → Event
  node_updated : Node → Node → Event
  node_deleted : Deleted Node → Event
  service_added : Service → Event
  service_updated : Service → Service → Event
  service_deleted : Deleted Service → Event
  endpoint_added : Endpoints → Event
  endpoint_updated : Endpoints → Endpoints → Event
  endpoint_deleted : Deleted Endpoints → Event
  secret_added : Kube.Secret → Event
  secret_updated : Kube.Secret → Kube.Secret → Event
  secret_deleted : Deleted Kube.Secret → Event

unfoldable pub handle : Listers → External → Event → Action (Unit {0})
handle ls d (ingress_added i) = modify (add_ingress d i)
handle ls d (ingress_updated old cur) = modify (update_ingress d old cur)
handle ls d (ingress_deleted i) = modify (delete_ingress d i)
handle ls d (v1beta1_ingress_added i) = modify (add_v1beta1_ingress d i)
handle ls d (v1beta1_ingress_updated old cur) = modify (update_v1beta1_ingress d old cur)
handle ls d (v1beta1_ingress_deleted i) = delete_v1beta1_ingress d i
handle ls d (node_added n) = modify (add_node d n)
handle ls d (node_updated old cur) = modify (update_node d old cur)
handle ls d (node_deleted n) = modify (delete_node n)
handle ls d (service_added s) = add_service ls d s
handle ls d (service_updated old cur) = update_service ls d old cur
handle ls d (service_deleted s) = delete_service ls d s
handle ls d (endpoint_added e) = add_endpoint ls d e
handle ls d (endpoint_updated old cur) = update_endpoint ls d old cur
handle ls d (endpoint_deleted e) = delete_endpoint ls d e
handle ls d (secret_added s) = modify (add_secret ls d s)
handle ls d (secret_updated old cur) = modify (update_secret ls d old cur)
handle ls d (secret_deleted s) = modify (delete_secret ls d s)

quiet-IsGood : {c c' : Controller} → IsQuiet c c' → IsGood c → IsGood c'
quiet-IsGood q (v, f) = (IsQuiet-IsValid q v, IsQuiet-IsFree q f)

quiet : (c : Controller) → IsQuiet c c
quiet c = record { store = refl; names = refl; queue = refl; readers = refl; writer = refl }

module _ (ls : Listers) (d : External) where
  add_service-Settles : (s : Service) (c : Controller) → IsGood c → Settles (add_service ls d s c)
  unfolding add_service
  add_service-Settles s c g = found_ones (get_ingresses_for_service ls s)
    where
      found_ones :
          (o : Outcome (List Ingress)) → Settles ((lift o >>= λ is. modify (enqueue_all d is)) c)
      found_ones (ok is) = quiet-IsGood (enqueue_all-IsQuiet d is c) g
      found_ones (err e) = g
      found_ones Outcome.panics = tt

  delete_service-Settles :
      (s : Deleted Service) (c : Controller) → IsGood c → Settles (delete_service ls d s c)
  unfolding delete_service
  delete_service-Settles s c g = elim (Option-cases (deleted_object s)) [
    | inl e ↦ rw (e, Settles) g
    | inr (t, e) ↦ rw (e, Settles) (add_service-Settles t c g)
  ]

  -- The service is taken for deleted and for added.
  again-Settles :
      (old cur : Service) (c : Controller)
      → IsGood c
      → Settles ((delete_service ls d (object old) >>= λ _. add_service ls d cur) c)
  again-Settles old cur c g =
      then-Settles (delete_service ls d (object old)) (add_service ls d cur) c
        (delete_service-Settles (object old) c g) (add_service-Settles cur)

  update_service-Settles :
      (old cur : Service) (c : Controller) → IsGood c → Settles (update_service ls d old cur c)
  unfolding update_service
  update_service-Settles old cur c g = elim (Bool-cases (same_map cur.selector old.selector)) [
    | inl e ↦ rw (e, Settles) g
    | inr e ↦ rw (e, Settles) (again-Settles old cur c g)
  ]

  add_endpoint-Settles :
      (e : Endpoints) (c : Controller) → IsGood c → Settles (add_endpoint ls d e c)
  unfolding add_endpoint
  add_endpoint-Settles e c g = elim (Option-cases (found? (ls.get_service e.namespace e.name))) [
    | inl p ↦ rw (p, Settles) g
    | inr (s, p) ↦ rw (p, Settles) (add_service-Settles s c g)
  ]

  update_endpoint-Settles :
      (old cur : Endpoints) (c : Controller) → IsGood c → Settles (update_endpoint ls d old cur c)
  unfolding update_endpoint
  update_endpoint-Settles old cur c g = elim (Bool-cases (same_subsets cur.subsets old.subsets)) [
    | inl e ↦ rw (e, Settles) g
    | inr e ↦
        rw (e, Settles)
          (elim (Option-cases (found? (ls.get_service old.namespace old.name))) [
            | inl p ↦ rw (p, Settles) g
            | inr (s, p) ↦ rw (p, Settles) (again-Settles s s c g)
          ])
  ]

  delete_endpoint-Settles :
      (e : Deleted Endpoints) (c : Controller) → IsGood c → Settles (delete_endpoint ls d e c)
  unfolding delete_endpoint
  delete_endpoint-Settles e c g = elim (Option-cases (deleted_object e)) [
    | inl p ↦ rw (p, Settles) g
    | inr (o, p) ↦
        rw (p, Settles)
          (elim (Option-cases (found? (ls.get_service o.namespace o.name))) [
            | inl q ↦ rw (q, Settles) g
            | inr (s, q) ↦ rw (q, Settles) (delete_service-Settles (object s) c g)
          ])
  ]

  delete_secret-IsQuiet :
      (s : Deleted Kube.Secret) (c : Controller) → IsQuiet c (delete_secret ls d s c)
  unfolding delete_secret
  delete_secret-IsQuiet s c = elim (Option-cases (deleted_object s)) [
    | inl p ↦ rw (p, delete_secret) (quiet c)
    | inr (o, p) ↦ rw (p, delete_secret) (add_secret-IsQuiet ls d o c)
  ]

  update_secret-IsQuiet :
      (old cur : Kube.Secret) (c : Controller) → IsQuiet c (update_secret ls d old cur c)
  unfolding update_secret
  update_secret-IsQuiet old cur c = ground (
    arith,
    quiet c,
    IsQuiet-trans (delete_secret-IsQuiet (object old) c)
        (add_secret-IsQuiet ls d cur (delete_secret ls d (object old) c)),
  )

  delete_v1beta1-Settles :
      (i : Deleted V1beta1Ingress) (c : Controller)
      → IsGood c
      → Settles (delete_v1beta1_ingress d i c)
  unfolding delete_v1beta1_ingress
  delete_v1beta1-Settles (object i) c g =
      quiet-IsGood (delete_ingress-IsQuiet d (object (to_v1_ingress i)) c) g
  delete_v1beta1-Settles (tombstone o) c g = tt
  delete_v1beta1-Settles unexpected c g = tt

  -- Whatever event comes, from a valid state with the lock of the store free, its handler never waits
  -- for that lock, and where it returns the state is valid and the lock is free.
  pub handle-Settles : (ev : Event) (c : Controller) → IsGood c → Settles (handle ls d ev c)
  unfolding handle add_v1beta1_ingress update_v1beta1_ingress
  handle-Settles (ingress_added i) c g = quiet-IsGood (add_ingress-IsQuiet d i c) g
  handle-Settles (ingress_updated old cur) c g = quiet-IsGood (update_ingress-IsQuiet d old cur c) g
  handle-Settles (ingress_deleted i) c g = quiet-IsGood (delete_ingress-IsQuiet d i c) g
  handle-Settles (v1beta1_ingress_added i) c g =
      quiet-IsGood (add_ingress-IsQuiet d (to_v1_ingress i) c) g
  handle-Settles (v1beta1_ingress_updated old cur) c g =
      quiet-IsGood (update_ingress-IsQuiet d (to_v1_ingress cur) (to_v1_ingress old) c) g
  handle-Settles (v1beta1_ingress_deleted i) c g = delete_v1beta1-Settles i c g
  handle-Settles (node_added n) c g = quiet-IsGood (add_node-IsQuiet d n c) g
  handle-Settles (node_updated old cur) c g = quiet-IsGood (update_node-IsQuiet d old cur c) g
  handle-Settles (node_deleted n) c g = quiet-IsGood (delete_node-IsQuiet n c) g
  handle-Settles (service_added s) c g = add_service-Settles s c g
  handle-Settles (service_updated old cur) c g = update_service-Settles old cur c g
  handle-Settles (service_deleted s) c g = delete_service-Settles s c g
  handle-Settles (endpoint_added e) c g = add_endpoint-Settles e c g
  handle-Settles (endpoint_updated old cur) c g = update_endpoint-Settles old cur c g
  handle-Settles (endpoint_deleted e) c g = delete_endpoint-Settles e c g
  handle-Settles (secret_added s) c g = quiet-IsGood (add_secret-IsQuiet ls d s c) g
  handle-Settles (secret_updated old cur) c g = quiet-IsGood (update_secret-IsQuiet old cur c) g
  handle-Settles (secret_deleted s) c g = quiet-IsGood (delete_secret-IsQuiet s c) g
