-- ===== src/CloudHub/Nodes.antt =====
-- cloud/pkg/cloudhub/handler/messagehandler.go: the tables of the nodes, what a connection and a
-- message from the edge do to them, and the check of the heart beats.
use envoyingresscontroller.Prelude.{
  ℕ, Bool, true, false, ◌&&◌, none, some, List, [], ◌∷◌, ◌++◌, Text, TextSet, Map, codes, lookup,
  put, remove, contains, add, discard, length, leb, if◌then◌else◌, ◌==◌, Outcome, ok, err, panics,
  no_connection,
}
use envoyingresscontroller.Constants.{slash}
use envoyingresscontroller.Message.{resource_node}
use envoyingresscontroller.CloudHub.{HubMessage, is_from_edge, new_resource}
use envoyingresscontroller.CloudHub.Queues.{ChannelMessageQueue, connect, close, publish}

-- ExitCode, of which the code sends `node_stop` alone.
pub data ExitCode : Type 0 where
  hubio_read_fail : ExitCode
  hubio_write_fail : ExitCode
  message_queue_disconnect : ExitCode
  node_stop : ExitCode
  node_disconnect : ExitCode

-- What the handler does to the outside: a message to a module, a group or a waiting request of
-- beehive, an acknowledgement's channel closed, a heart beat passed on, a connection closed, data
-- written to it, a channel of heart beats closed, a goroutine that serves the node.
pub data Effect : Type 0 where
  sent_to : Text → HubMessage → Effect
  responded : HubMessage → Effect
  published : Text → HubMessage → Effect
  ack_closed : Text → Effect
  beat : Text → Effect
  connection_closed : Text → Effect
  wrote : Text → HubMessage → Effect
  beats_closed : Text → Effect
  serves : Text → Effect

-- MessageHandle, with connections by their names.
pub record MessageHandle : Type 0 where
  pub nodes : TextSet
  pub node_conns : Map Text
  pub node_locks : TextSet
  pub node_registered : TextSet
  pub keepalive_channel : TextSet
  pub message_acks : TextSet
  pub node_limit : ℕ
  pub message_queue : ChannelMessageQueue
  pub effects : List Effect

abbrev emit : Effect → MessageHandle → MessageHandle
emit e h = record h { effects = h.effects ++ e ∷ [] }

-- PubToController
unfoldable pub pub_to_controller : Text → HubMessage → MessageHandle → MessageHandle
unfolding is_from_edge publish
pub_to_controller node_id m h =
    let located : HubMessage = record m {
      message = record (m.message) {
        resource = codes "node/" ++ (node_id ++ slash ∷ m.message.resource);
      };
    } in
    if is_from_edge located then emit (published (publish located) located) h else h

-- The acknowledgement of a message.
unfoldable pub handle_ack : Text → MessageHandle → MessageHandle
handle_ack parent_id h =
    if contains parent_id h.message_acks
    then emit (ack_closed parent_id) (record h { message_acks = discard parent_id h.message_acks })
    else h

-- The heart beat of a node.
unfoldable pub handle_keepalive : Text → MessageHandle → MessageHandle
handle_keepalive node_id h =
    if contains node_id h.keepalive_channel then emit (beat node_id) h else h

-- HandleServer. `is_volume` is VolumeRegExp.MatchString, of regexp.
unfoldable pub handle_server : (Text → Bool) → Text → HubMessage → MessageHandle → MessageHandle
unfolding pub_to_controller handle_ack handle_keepalive
handle_server is_volume node_id m h =
    if leb h.node_limit (length h.nodes)
    then h
    else if m.message.operation == codes "keepalive"
    then handle_keepalive node_id h
    else if is_volume m.message.resource
    then emit (responded m) h
    else if m.message.operation == codes "response"
    then handle_ack m.parent_id h
    else if m.message.operation == codes "upload" && m.message.group == codes "user"
    then emit
        (sent_to (codes "router") (record m {
          message = record (m.message) {
            resource = codes "node/" ++ (node_id ++ slash ∷ m.message.resource);
          };
        }))
        h
    else pub_to_controller node_id m h

-- OnRegister
unfoldable pub on_register : Text → Text → MessageHandle → MessageHandle
on_register node_id connection h =
    let known = record h { keepalive_channel = add node_id h.keepalive_channel } in
    let kept = record known { node_conns = put node_id connection known.node_conns } in
    if contains node_id h.node_registered
    then elim (lookup node_id h.node_conns) [
      | none ↦ kept
      | some old ↦ emit (connection_closed old) kept
    ]
    else emit (serves node_id) kept

-- constructConnectMessage, with the identity and the content that it is made with.
unfoldable pub construct_connect_message : Text → Text → Text → Bool → HubMessage
unfolding new_resource
construct_connect_message id content node_id is_connected = record {
  id = id;
  parent_id = [];
  message = record {
    resource_version = [];
    source = codes "cloudhub";
    group = codes "resource";
    resource = new_resource resource_node node_id none;
    operation = if is_connected then codes "connected" else codes "disconnected";
    content = content;
  };
  metadata = none;
}

-- RegisterNode: Publish never fails, so that no other error comes back.
unfoldable pub register_node : Text → Text → Text → MessageHandle → Outcome MessageHandle
unfolding construct_connect_message
register_node id content node_id h = elim (lookup node_id h.node_conns) [
  | none ↦ err no_connection
  | some connection ↦
      let m = construct_connect_message id content node_id true in
      let served = record h { message_queue = connect node_id h.message_queue } in
      ok (record (emit (published (publish m) m) served) {
        node_locks = add node_id h.node_locks;
        nodes = add node_id h.nodes;
        node_registered = add node_id h.node_registered;
      })
]

-- notifyEventQueueError
unfoldable pub notify_event_queue_error :
    Text → Text → ExitCode → Text → MessageHandle → MessageHandle
unfolding new_resource
notify_event_queue_error id connection message_queue_disconnect node_id h =
    emit
      (wrote connection (record {
        id = id;
        parent_id = [];
        message = record {
          resource_version = [];
          source = codes "resource";
          group = codes "cloudhub";
          resource = new_resource resource_node node_id none;
          operation = codes "disconnected";
          content = [];
        };
        metadata = none;
      }))
      h
notify_event_queue_error id connection _ node_id h = h

-- The connection of a node that is unregistered is told and closed.
unfoldable pub end_connection : Text → ExitCode → Text → MessageHandle → MessageHandle
unfolding notify_event_queue_error
end_connection id code node_id h = elim (lookup node_id h.node_conns) [
  | none ↦ h
  | some connection ↦
      emit (connection_closed connection) (notify_event_queue_error id connection code node_id h)
]

-- The channel of the heart beats of a node that is unregistered is closed.
unfoldable pub end_keepalive : Text → MessageHandle → MessageHandle
end_keepalive node_id h =
    if contains node_id h.keepalive_channel
    then emit (beats_closed node_id)
        (record h { keepalive_channel = discard node_id h.keepalive_channel })
    else h

-- UnregisterNode
unfoldable pub unregister_node : Text → Text → ExitCode → Text → MessageHandle → MessageHandle
unfolding end_connection end_keepalive construct_connect_message
unregister_node id content code node_id h =
    let ended = end_connection id code node_id h in
    let dropped = end_keepalive node_id (record ended {
      node_locks = discard node_id ended.node_locks;
      node_conns = remove node_id ended.node_conns;
      node_registered = discard node_id ended.node_registered;
    }) in
    let m = construct_connect_message id content node_id false in
    let told = emit (published (publish m) m) dropped in
    record told {
      nodes = discard node_id told.nodes;
      message_queue = elim code [
        | node_stop ↦ close node_id told.message_queue
        | _ ↦ told.message_queue
      ];
    }

-- The arm of `KeepaliveCheckLoop` that the timer wakes.
unfoldable pub keepalive_timeout : Text → MessageHandle → MessageHandle
keepalive_timeout node_id h = elim (lookup node_id h.node_conns) [
  | none ↦ h
  | some connection ↦
      emit (connection_closed connection) (record h { node_conns = remove node_id h.node_conns })
]

-- A connection, a message, a registration, its end or a timeout.
pub data NodeEvent : Type 0 where
  connected : Text → Text → NodeEvent
  received : Text → HubMessage → NodeEvent
  registered : Text → Text → Text → NodeEvent
  unregistered : Text → Text → ExitCode → Text → NodeEvent
  timed_out : Text → NodeEvent

-- What each does, a failed registration being logged.
unfoldable pub handle_event : (Text → Bool) → NodeEvent → MessageHandle → MessageHandle
unfolding handle_server on_register register_node unregister_node keepalive_timeout
handle_event v (connected node connection) h = on_register node connection h
handle_event v (received node m) h = handle_server v node m h
handle_event v (registered id content node) h = elim (register_node id content node h) [
  | ok h' ↦ h'
  | err e ↦ h
  | panics ↦ h
]
handle_event v (unregistered id content code node) h = unregister_node id content code node h
handle_event v (timed_out node) h = keepalive_timeout node h

unfoldable pub handle_events : (Text → Bool) → List NodeEvent → MessageHandle → MessageHandle
unfolding handle_event
handle_events v [] h = h
handle_events v (e ∷ es) h = handle_events v es (handle_event v e h)
