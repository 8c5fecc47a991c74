-- ===== src/CloudHub/Queues.antt =====
-- cloud/pkg/cloudhub/channelq/channelq.go: the queues and stores of the nodes.
use envoyingresscontroller.Prelude.{
  Bool, true, false, not, ◌&&◌, ◌||◌, Option, none, some, List, [], ◌∷◌, ◌++◌, Text, Map, codes,
  lookup, put, remove, split, join, is_nil, if◌then◌else◌, ◌==◌, Outcome, ok, err, panics, ◌>>=◌,
  no_node_id, no_message_key, no_metadata,
}
use envoyingresscontroller.Constants.{slash}
use envoyingresscontroller.Message.{
  get_namespace, get_resource_type, get_resource_name, resource_node, delete_operation,
}
use envoyingresscontroller.CloudHub.{
  HubMessage, or_empty, has_part, newer, same, older, compare_resource_version,
  build_object_sync_name,
}

-- What the code tells a work queue, whose order of keys and rate limits are client-go's.
pub data QueueCall : Type 0 where
  add_key : Text → QueueCall
  add_rate_limited : Text → QueueCall
  forget : Text → QueueCall
  done : Text → QueueCall
  shut_down : QueueCall

abbrev pub Queue : Type 0
Queue = List QueueCall

-- cache.Store: the messages under their keys.
abbrev pub Store : Type 0
Store = Map HubMessage

-- ChannelMessageQueue
pub record ChannelMessageQueue : Type 0 where
  pub queue_pool : Map Queue
  pub store_pool : Map Store
  pub list_queue_pool : Map Queue
  pub list_store_pool : Map Store

abbrev pub empty_queues : ChannelMessageQueue
empty_queues = record {
  queue_pool = [];
  store_pool = [];
  list_queue_pool = [];
  list_store_pool = [];
}

-- The object syncs of a lister or of the API server, by namespace and name: the version in their status.
abbrev pub ObjectSyncs : Type 0
ObjectSyncs = Text → Text → Option Text

-- An entry of a pool, a new one where there is none.
abbrev pub entry {ℓ} : {A : Type ℓ} → Text → Map (List A) → List A
entry node_id m = elim (lookup node_id m) [ none ↦ [] | some v ↦ v ]

-- GetNodeQueue: the queue, and the pools with it.
unfoldable pub get_node_queue : Text → ChannelMessageQueue → Queue × ChannelMessageQueue
get_node_queue node_id q = elim (lookup node_id q.queue_pool) [
  | none ↦ ([], record q { queue_pool = put node_id [] q.queue_pool })
  | some queue ↦ (queue, q)
]

-- GetNodeListQueue
unfoldable pub get_node_list_queue : Text → ChannelMessageQueue → Queue × ChannelMessageQueue
get_node_list_queue node_id q = elim (lookup node_id q.list_queue_pool) [
  | none ↦ ([], record q { list_queue_pool = put node_id [] q.list_queue_pool })
  | some queue ↦ (queue, q)
]

-- GetNodeStore
unfoldable pub get_node_store : Text → ChannelMessageQueue → Store × ChannelMessageQueue
get_node_store node_id q = elim (lookup node_id q.store_pool) [
  | none ↦ ([], record q { store_pool = put node_id [] q.store_pool })
  | some store ↦ (store, q)
]

-- GetNodeListStore
unfoldable pub get_node_list_store : Text → ChannelMessageQueue → Store × ChannelMessageQueue
get_node_list_store node_id q = elim (lookup node_id q.list_store_pool) [
  | none ↦ ([], record q { list_store_pool = put node_id [] q.list_store_pool })
  | some store ↦ (store, q)
]

-- GetMessageUID
unfoldable pub get_message_uid : HubMessage → Outcome Text
get_message_uid m = elim m.metadata [ none ↦ err no_metadata | some o ↦ ok o.uid ]

-- GetMessageDeletionTimestamp
unfoldable pub get_message_deletion_timestamp : HubMessage → Outcome (Option Text)
get_message_deletion_timestamp m = elim m.metadata [
  | none ↦ err no_metadata
  | some o ↦ ok o.deletion_timestamp
]

-- isDeleteMessage
unfoldable pub is_delete_message : HubMessage → Bool
unfolding get_message_deletion_timestamp
is_delete_message m =
    m.message.operation == delete_operation || elim (get_message_deletion_timestamp m) [
      | ok t ↦ elim t [ none ↦ false | some time ↦ true ]
      | err e ↦ false
      | panics ↦ false
    ]

-- getMsgKey
unfoldable pub get_msg_key : HubMessage → Outcome Text
get_msg_key m =
    if m.message.group == codes "resource"
    then ok (
        join slash (
          or_empty (get_resource_type m.message)
          ∷ or_empty (get_namespace m.message)
          ∷ or_empty (get_resource_name m.message)
          ∷ []))
    else err no_message_key

-- getListMsgKey
unfoldable pub get_list_msg_key : HubMessage → Text
get_list_msg_key m = m.id

-- isListResource
unfoldable pub is_list_resource : HubMessage → Bool
unfolding has_part
is_list_resource m =
    let resource = m.message.resource in
    has_part (codes "podlist") resource
    || has_part (codes "servicelist") resource
    || has_part (codes "endpointslist") resource
    || has_part (codes "membership") resource
    || has_part (codes "twin/cloud_updated") resource
    || has_part (codes "envoy") resource
    || m.message.operation == codes "applicationResponse"
    || (m.message.operation == codes "response" && m.message.content == codes "OK")
    || (m.message.source == codes "edgecontroller"
        && or_empty (get_resource_type m.message) == resource_node)
    || m.message.group == codes "user"

-- The loop of `GetNodeID`: what follows the first part that is "node" and has a part after it that is not empty.
unfoldable pub after_node : List Text → Outcome Text
after_node [] = err no_node_id
after_node (t ∷ []) = err no_node_id
after_node (t ∷ n ∷ ts) =
    let rest = after_node (n ∷ ts) in if t == resource_node && not (is_nil n) then ok n else rest

-- GetNodeID
unfoldable pub get_node_id : HubMessage → Outcome Text
unfolding after_node
get_node_id m = after_node (split slash m.message.resource)

-- addListMessageToQueue
unfoldable pub add_list_message : Text → HubMessage → ChannelMessageQueue → ChannelMessageQueue
unfolding get_list_msg_key
add_list_message node_id m q = record q {
  list_queue_pool =
      put node_id (entry node_id q.list_queue_pool ++ add_key (get_list_msg_key m) ∷ [])
        q.list_queue_pool;
  list_store_pool =
      put node_id (put (get_list_msg_key m) m (entry node_id q.list_store_pool)) q.list_store_pool;
}

-- Whether a version is no newer than one that is there already.
unfoldable pub is_stale : Text → Text → Outcome Bool
unfolding compare_resource_version
is_stale version held = compare_resource_version version held >>= λ c.
    ok (elim c [ newer ↦ false | same ↦ true | older ↦ true ])

-- The test against the object sync, for a message whose key is not in the store.
unfoldable pub is_synced : ObjectSyncs → Text → HubMessage → Outcome Bool
unfolding get_message_uid build_object_sync_name is_stale
is_synced syncs node_id m = get_message_uid m >>= λ uid.
    elim (syncs (or_empty (get_namespace m.message)) (build_object_sync_name node_id uid)) [
      | none ↦ ok false
      | some version ↦
          if is_nil version then ok false else is_stale m.message.resource_version version
    ]

-- The test against the message in the store.
unfoldable pub is_superseded : HubMessage → HubMessage → Outcome Bool
unfolding is_delete_message is_stale
is_superseded held m =
    if is_delete_message held
    then ok true
    else is_stale m.message.resource_version held.message.resource_version

-- Whether `addMessageToQueue` drops a message that has a key.
unfoldable pub is_dropped : ObjectSyncs → Text → Option HubMessage → HubMessage → Outcome Bool
unfolding is_delete_message is_synced is_superseded
is_dropped syncs node_id held m =
    if is_delete_message m
    then ok false
    else elim held [ none ↦ is_synced syncs node_id m | some h ↦ is_superseded h m ]

-- nodeStore.Add and nodeQueue.Add
unfoldable pub store_message : Text → Text → HubMessage → ChannelMessageQueue → ChannelMessageQueue
store_message node_id key m q = record q {
  queue_pool = put node_id (entry node_id q.queue_pool ++ add_key key ∷ []) q.queue_pool;
  store_pool = put node_id (put key m (entry node_id q.store_pool)) q.store_pool;
}

-- addMessageToQueue: the pools after it, or the panic of a version that is no number.
unfoldable pub add_message :
    ObjectSyncs → Text → HubMessage → ChannelMessageQueue → Outcome ChannelMessageQueue
unfolding is_delete_message get_node_queue get_node_store get_msg_key is_dropped store_message
add_message syncs node_id m q =
    if is_nil m.message.resource_version && not (is_delete_message m)
    then ok q
    else let (queue, q') = get_node_queue node_id q in
      let (store, q'') = get_node_store node_id q' in
      elim (get_msg_key m) [
        | err e ↦ ok q''
        | panics ↦ panics
        | ok key ↦ elim (is_dropped syncs node_id (lookup key store) m) [
          | err e ↦ ok q''
          | panics ↦ panics
          | ok dropped ↦ ok (if dropped then q'' else store_message node_id key m q'')
        ]
      ]

-- One message of `DispatchMessage`.
unfoldable pub dispatch :
    ObjectSyncs → HubMessage → ChannelMessageQueue → Outcome ChannelMessageQueue
unfolding get_node_id is_list_resource add_list_message add_message
dispatch syncs m q = elim (get_node_id m) [
  | err e ↦ ok q
  | panics ↦ panics
  | ok node_id ↦
      if is_list_resource m
      then ok (add_list_message node_id m q)
      else add_message syncs node_id m q
]

-- DispatchMessage: the messages that it receives before the context is done, each with what the
-- lister answers then.
unfoldable pub dispatch_messages :
    List (ObjectSyncs × HubMessage) → ChannelMessageQueue → Outcome ChannelMessageQueue
unfolding dispatch
dispatch_messages [] q = ok q
dispatch_messages ((syncs, m) ∷ ms) q = dispatch syncs m q >>= dispatch_messages ms

abbrev create_if_missing {ℓ} : {A : Type ℓ} → Text → Map (List A) → Map (List A)
create_if_missing node_id m = elim (lookup node_id m) [ none ↦ put node_id [] m | some v ↦ m ]

-- Connect
unfoldable pub connect : Text → ChannelMessageQueue → ChannelMessageQueue
connect node_id q = record {
  queue_pool = create_if_missing node_id q.queue_pool;
  store_pool = create_if_missing node_id q.store_pool;
  list_queue_pool = create_if_missing node_id q.list_queue_pool;
  list_store_pool = create_if_missing node_id q.list_store_pool;
}

-- Close
unfoldable pub close : Text → ChannelMessageQueue → ChannelMessageQueue
close node_id q = record {
  queue_pool = remove node_id q.queue_pool;
  store_pool = remove node_id q.store_pool;
  list_queue_pool = remove node_id q.list_queue_pool;
  list_store_pool = remove node_id q.list_store_pool;
}

-- Publish: the module or group that gets the message.
unfoldable pub publish : HubMessage → Text
publish m =
    if m.message.source == codes "metaserver"
    then codes "dynamiccontroller"
    else if m.message.source == codes "twin"
    then codes "devicecontroller"
    else codes "edgecontroller"
