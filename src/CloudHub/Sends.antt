-- ===== src/CloudHub/Sends.antt =====
-- cloud/pkg/cloudhub/handler/messagehandler.go: `sendMsg`, the success points, and one round of each
-- write loop. The select of `sendMsg` takes what comes first, which is a list of events here.
use envoyingresscontroller.Prelude.{
  ℕ, suc, Bool, Option, none, some, List, [], ◌∷◌, ◌++◌, Text, TextSet, codes, lookup, put, remove,
  add, discard, eqb, if◌then◌else◌, ◌==◌, Error, ok, err, panics, node_disconnected, write_failed,
}
use envoyingresscontroller.Message.{
  get_namespace, get_resource_name, trim_message, delete_operation,
}
use envoyingresscontroller.CloudHub.{
  HubMessage, or_empty, build_object_sync_name, is_node_stopped, is_to_edge,
}
use envoyingresscontroller.CloudHub.Queues.{
  Queue, add_rate_limited, forget, done, shut_down, Store, get_msg_key, get_list_msg_key,
  get_message_uid,
}

-- What the select of `sendMsg` wakes on.
pub data Event : Type 0 where
  acked : Event
  ticked : Event

-- The calls of the client of the API server.
pub data SyncCall : Type 0 where
  get_sync : Text → Text → SyncCall
  update_status : Text → Text → Text → SyncCall
  create_sync : Text → Text → Text → SyncCall
  delete_sync : Text → Text → SyncCall

-- What the API server answers to a Get: an object sync, that there is none, or another error.
pub data Got : Type 0 where
  found : Got
  not_found : Got
  failed : Got

pub record Answers : Type 0 where
  pub first_get : Got
  pub created : Bool
  pub second_get : Bool

-- What a send works on: the store of the node, the acknowledgements that are waited for, what was
-- written to the connection and what was asked of the API server.
pub record Sender : Type 0 where
  pub store : Store
  pub message_acks : TextSet
  pub written : List HubMessage
  pub calls : List SyncCall

-- What a write finds: whether the node has a lock, which it has while it is registered, and whether
-- the connection takes the data.
pub record Link : Type 0 where
  pub locked : Bool
  pub writes : Bool

abbrev pub trim_copy : HubMessage → HubMessage
trim_copy m = record m { message = trim_message m.message }

-- hubIoWrite, and `send` which calls it: without a lock the node is not connected.
unfoldable pub hub_io_write : Link → HubMessage → Sender → Sender × Option Error
hub_io_write link m s =
    if link.locked
    then if link.writes
      then (record s { written = s.written ++ m ∷ [] }, none)
      else (s, some write_failed)
    else (s, some node_disconnected)

abbrev ask : List SyncCall → Sender → Sender
ask cs s = record s { calls = s.calls ++ cs }

-- deleteSuccessPoint
unfoldable pub delete_success_point : Text → Text → Sender → Sender
delete_success_point namespace name s = ask (delete_sync namespace name ∷ []) s

-- The Create and the Get after it, when there was no object sync. A Get that fails is only logged, so
-- the status of an empty object is updated then.
unfoldable pub create_success_point : Answers → Text → Text → HubMessage → Sender → Sender
create_success_point a namespace name m s =
    let asked = create_sync namespace name (or_empty (get_resource_name m.message)) in
    if a.created
    then ask
        (get_sync namespace name
          ∷ asked
          ∷ get_sync namespace name
          ∷ update_status namespace (if a.second_get then name else []) m.message.resource_version
          ∷ [])
        s
    else ask (get_sync namespace name ∷ asked ∷ []) s

unfoldable pub save_version : Answers → Text → Text → HubMessage → Sender → Sender
unfolding create_success_point
save_version a namespace name m s = elim a.first_get [
  | found ↦
      ask (get_sync namespace name ∷ update_status namespace name m.message.resource_version ∷ []) s
  | not_found ↦ create_success_point a namespace name m s
  | failed ↦ ask (get_sync namespace name ∷ []) s
]

-- nodeStore.Delete: under the key of the message, if it has one.
unfoldable pub delete_from_store : HubMessage → Store → Store
unfolding get_msg_key
delete_from_store m store = elim (get_msg_key m) [
  | ok key ↦ remove key store
  | err e ↦ store
  | panics ↦ store
]

-- saveSuccessPoint
unfoldable pub save_success_point : Answers → Text → HubMessage → Sender → Sender
unfolding get_message_uid delete_from_store delete_success_point save_version build_object_sync_name
save_success_point a node_id m s =
    if m.message.group == codes "resource"
    then elim (get_message_uid m) [
      | err e ↦ s
      | panics ↦ s
      | ok uid ↦
          if m.message.operation == delete_operation
          then delete_success_point (or_empty (get_namespace m.message))
              (build_object_sync_name node_id uid)
              (record s { store = delete_from_store m s.store })
          else save_version a (or_empty (get_namespace m.message))
              (build_object_sync_name node_id uid) m s
    ]
    else s

-- How a send ends: with an error or none, or not yet, when the events have run out.
pub data Sent : Type 0 where
  settled : Sender → Option Error → Sent
  waiting : Sender → Sent

-- A write that fails ends the send with its error.
abbrev pub if_written : (Sender → Sent) → Sender × Option Error → Sent
if_written rest (s, none) = rest s
if_written rest (s, some e) = settled s (some e)

-- The LOOP of `sendMsg`, after a number of retries, over the events that come. `links n` is what the
-- write number `n` finds. An acknowledgement is the HandleServer that closes the channel and deletes it.
unfoldable pub send_loop :
    Answers → Text → HubMessage → HubMessage → (ℕ → Link) → ℕ → List Event → Sender → Sent
unfolding save_success_point hub_io_write
send_loop a node_id copy m links retry [] s = waiting s
send_loop a node_id copy m links retry (acked ∷ es) s =
    settled
      (save_success_point a node_id m (record s { message_acks = discard copy.id s.message_acks }))
      none
send_loop a node_id copy m links retry (ticked ∷ es) s =
    let rest : Sender → Sent = λ s'. send_loop a node_id copy m links (suc retry) es s' in
    if eqb retry 4
    then settled s none
    else if_written rest (hub_io_write (links (suc retry)) copy s)

-- sendMsg
unfoldable pub send_msg :
    Answers → Text → HubMessage → HubMessage → (ℕ → Link) → List Event → Sender → Sent
unfolding hub_io_write send_loop
send_msg a node_id copy m links events s =
    if_written (send_loop a node_id copy m links 0 events)
      (hub_io_write (links 0) copy (record s { message_acks = add copy.id s.message_acks }))

-- One round of a write loop: the queue and the sender after it, whether the loop goes on, and `stuck`
-- while a send waits for an event.
pub data Round : Type 0 where
  goes_on : Queue → Sender → Round
  stops : Queue → Queue → Sender → Round
  stuck : Sender → Round

-- The round of `MessageWriteLoop` after a send.
unfoldable pub after_send : Text → Queue → Sent → Round
after_send key queue (waiting s) = stuck s
after_send key queue (settled s none) = goes_on (queue ++ forget key ∷ done key ∷ []) s
after_send key queue (settled s (some e)) =
    goes_on (queue ++ add_rate_limited key ∷ forget key ∷ done key ∷ []) s

-- One round of `MessageWriteLoop` for the key that Get gave. The send starts once the node has a
-- connection, which the loop waits for.
unfoldable pub write_round :
    Answers → Text → Text → (ℕ → Link) → List Event → Queue → Sender → Round
unfolding is_to_edge send_msg after_send
write_round a node_id key links events queue s = elim (lookup key s.store) [
  | none ↦ goes_on (queue ++ done key ∷ []) s
  | some m ↦
      if is_to_edge m
      then after_send key queue (send_msg a node_id (trim_copy m) m links events s)
      else goes_on (queue ++ done key ∷ []) s
]

-- The rest of a round of `ListMessageWriteLoop` once the node has a connection: the message leaves the
-- store whether or not it was sent. `trimMessage` has changed the message itself.
unfoldable pub list_send : Text → Link → HubMessage → Queue → Sender → Round
unfolding hub_io_write get_list_msg_key
list_send key link m list_queue s =
    let (s', failure) = hub_io_write link m s in
    goes_on (list_queue ++ forget key ∷ done key ∷ [])
      (record s' { store = remove (get_list_msg_key m) s'.store })

-- One round of `ListMessageWriteLoop`; the store holds pointers, so that a message that is trimmed and
-- kept is kept trimmed.
unfoldable pub list_write_round : Text → Bool → Link → Queue → Queue → Sender → Round
unfolding is_node_stopped is_to_edge list_send
list_write_round key connected link node_queue list_queue s = elim (lookup key s.store) [
  | none ↦ goes_on list_queue s
  | some m ↦
      if is_node_stopped m
      then stops (node_queue ++ shut_down ∷ []) (list_queue ++ shut_down ∷ []) s
      else if is_to_edge m
      then if connected
        then list_send key link (trim_copy m) list_queue
            (record s { store = put key (trim_copy m) s.store })
        else goes_on list_queue (record s { store = put key (trim_copy m) s.store })
      else goes_on list_queue s
]
