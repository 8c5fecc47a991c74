-- ===== src/CloudHub/Acks.antt =====
-- cloud/pkg/cloudhub/handler/messagehandler.go: what an acknowledgement of a message does, and what the
-- lack of one does.
use envoyingresscontroller.Prelude.{
  ℕ, zero, suc, ◌+◌, ◌≤◌, true, ◌≡◌, refl, inl, inr, none, some, List, [], ◌∷◌, ◌++◌, Text,
  replicate, arith, Bool-cases, discard, add, ◌∙◌, sym, ap, codes, remove, ◌==◌, if◌then◌else◌, ok,
  eq_iff,
}
use mathlib.Core.List.{append_assoc, append-nil}
use envoyingresscontroller.Message.{get_namespace}
use envoyingresscontroller.CloudHub.{HubMessage, ObjectMeta, or_empty, build_object_sync_name}
use envoyingresscontroller.CloudHub.Queues.{Store, get_msg_key, get_message_uid}
use envoyingresscontroller.CloudHub.Sends.{
  Event, acked, ticked, Answers, Sender, Link, settled, hub_io_write, send_loop, send_msg,
  save_success_point, save_version, delete_success_point, delete_from_store, found, get_sync,
  update_status, delete_sync,
}
use envoyingresscontroller.CloudHub.Retry.{with_copy, ack, tick}

abbrev ticks : ℕ → List Event
ticks n = replicate n ticked

-- Every write succeeds.
abbrev pub IsUp : (ℕ → Link) → Type 0
IsUp links = (n : ℕ) → (links n).locked ≡ true × (links n).writes ≡ true

hub_io_write-IsUp :
    (links : ℕ → Link) (n : ℕ) (copy : HubMessage) (s : Sender)
    → IsUp links
    → hub_io_write (links n) copy s ≡ (with_copy copy s, none)
unfolding hub_io_write
hub_io_write-IsUp links n copy s up = let (p, q) = up n in rw (p, q) refl

abbrev with_copies : ℕ → HubMessage → Sender → Sender
with_copies n copy s = record s { written = s.written ++ replicate n copy }

send_loop-at :
    (a : Answers) (node : Text) (copy m : HubMessage) (links : ℕ → Link) (es : List Event)
    (s : Sender) {n n' : ℕ} {w w' : List HubMessage}
    → n ≡ n'
    → w ≡ w'
    → send_loop a node copy m links n es (record s { written = w })
      ≡ send_loop a node copy m links n' es (record s { written = w' })
send_loop-at a node copy m links es s p q =
    λ i. send_loop a node copy m links (p i) es (record s { written = q i })

-- The loop after ticks that do not end it.
send_loop-ticks :
    (a : Answers) (node : Text) (copy m : HubMessage) (links : ℕ → Link) (retry n : ℕ)
    (es : List Event) (s : Sender)
    → IsUp links
    → retry + n ≤ 4
    → send_loop a node copy m links retry (ticks n ++ es) s
      ≡ send_loop a node copy m links (retry + n) es (with_copies n copy s)
send_loop-ticks a node copy m links retry zero es s up l =
    send_loop-at a node copy m links es s (omega arith) (sym (append-nil s.written))
send_loop-ticks a node copy m links retry (suc n) es s up l =
    tick a node copy m links retry (ticks n ++ es) s (ground arith)
      (hub_io_write-IsUp links (suc retry) copy s up)
    ∙ send_loop-ticks a node copy m links (suc retry) n es (with_copy copy s) up (omega (arith, l))
    ∙ send_loop-at a node copy m links es s (omega arith)
        (append_assoc s.written (copy ∷ []) (replicate n copy))

-- After at most four ticks an acknowledgement saves the success point.
send_msg-saved :
    (a : Answers) (node : Text) (copy m : HubMessage) (links : ℕ → Link) (n : ℕ) (es : List Event)
    (s : Sender)
    → IsUp links
    → n ≤ 4
    → send_msg a node copy m links (ticks n ++ acked ∷ es) s
      ≡ settled
          (save_success_point a node m (record s {
            written = s.written ++ replicate (suc n) copy;
            message_acks = discard copy.id (add copy.id s.message_acks);
          }))
          none
unfolding send_msg
send_msg-saved a node copy m links n es s up l =
    let asked : Sender = record s { message_acks = add copy.id s.message_acks } in
    rw (hub_io_write-IsUp links 0 copy asked up) (
      send_loop-ticks a node copy m links 0 n (acked ∷ es) (with_copy copy asked) up
        (omega (arith, l))
      ∙ send_loop-at a node copy m links (acked ∷ es) asked {n = 0 + n} refl
          (append_assoc s.written (copy ∷ []) (replicate n copy))
      ∙ ack a node copy m links (0 + n) es
          (record asked { written = s.written ++ replicate (suc n) copy }))

delete_from_store-key :
    (m : HubMessage) (key : Text) (store : Store)
    → get_msg_key m ≡ ok key
    → delete_from_store m store ≡ remove key store
unfolding delete_from_store
delete_from_store-key m key store k = rw (k, delete_from_store) refl

-- The success point of an object that has an object sync.
save_success_point-found :
    (a : Answers) (node key : Text) (m : HubMessage) (o : ObjectMeta) (s : Sender)
    → m.message.group ≡ codes "resource"
    → m.metadata ≡ some o
    → get_msg_key m ≡ ok key
    → a.first_get ≡ found
    → let sync = build_object_sync_name node o.uid in
      let namespace = or_empty (get_namespace m.message) in
      let deletes = m.message.operation == codes "delete" in
      save_success_point a node m s ≡ record s {
        store = if deletes then remove key s.store else s.store;
        calls =
            s.calls
            ++ (if deletes
                then delete_sync namespace sync ∷ []
                else get_sync namespace sync
                  ∷ update_status namespace sync m.message.resource_version
                  ∷ []);
      }
unfolding save_success_point get_message_uid delete_success_point save_version
save_success_point-found a node key m o s g e k f =
    let in_group : (m.message.group == codes "resource") ≡ true =
      (eq_iff m.message.group (codes "resource")).1 g in
    elim (Bool-cases (m.message.operation == codes "delete")) [
      | inl p ↦ rw (in_group, e, p, delete_from_store-key m key s.store k) refl
      | inr p ↦ rw (in_group, e, f, p) refl
    ]

-- While the writes succeed, an acknowledgement that comes after at most four ticks, for a message on an object that has an
-- object sync, ends `sendMsg` without an error. The message has then been written once more than there were
-- ticks and is no longer waited for; for a deletion, the object has left the store and the deletion of its object sync was asked for,
-- and for another operation the version of the message was asked to be the one in the status of the object sync.
pub send_msg-acked :
    (a : Answers) (node key : Text) (copy m : HubMessage) (o : ObjectMeta) (links : ℕ → Link)
    (n : ℕ) (es : List Event) (s : Sender)
    → IsUp links
    → n ≤ 4
    → m.message.group ≡ codes "resource"
    → m.metadata ≡ some o
    → get_msg_key m ≡ ok key
    → a.first_get ≡ found
    → let sync = build_object_sync_name node o.uid in
      let namespace = or_empty (get_namespace m.message) in
      let deletes = m.message.operation == codes "delete" in
      send_msg a node copy m links (ticks n ++ acked ∷ es) s
      ≡ settled
          (record {
            written = s.written ++ replicate (suc n) copy;
            message_acks = discard copy.id (add copy.id s.message_acks);
            store = if deletes then remove key s.store else s.store;
            calls =
                s.calls
                ++ (if deletes
                    then delete_sync namespace sync ∷ []
                    else get_sync namespace sync
                      ∷ update_status namespace sync m.message.resource_version
                      ∷ []);
          })
          none
send_msg-acked a node key copy m o links n es s up l g e k f =
    send_msg-saved a node copy m links n es s up l
    ∙ ap (λ t. settled t none)
        (save_success_point-found a node key m o
          (record s {
            written = s.written ++ replicate (suc n) copy;
            message_acks = discard copy.id (add copy.id s.message_acks);
          })
          g e k f)
