-- ===== src/CloudHub/Registry.antt =====
-- cloud/pkg/cloudhub/handler/messagehandler.go: the tables of the nodes over the events.
use envoyingresscontroller.Prelude.{
  ℕ, Bool, true, ◌≡◌, refl, ap, ◌∙◌, some, List, [], ◌∷◌, Text, TextSet, lookup, contains, discard,
  remove, eq_iff, arith, Option-cases, Bool-cases, inl, inr, lookup-put, lookup-remove,
  contains-add, contains-discard, if◌then◌else◌,
}
use envoyingresscontroller.CloudHub.{HubMessage}
use envoyingresscontroller.CloudHub.Queues.{empty_queues}
use envoyingresscontroller.CloudHub.Nodes.{
  MessageHandle, ExitCode, hubio_read_fail, hubio_write_fail, message_queue_disconnect, node_stop,
  node_disconnect, NodeEvent, connected, received, registered, unregistered, timed_out,
  handle_event, handle_events, handle_server, pub_to_controller, handle_ack, handle_keepalive,
  on_register, register_node, unregister_node, end_connection, end_keepalive,
  notify_event_queue_error, keepalive_timeout,
}

-- The node is counted and has a lock exactly if it is registered, and it has a channel of heart beats if it is registered or
-- has a connection.
pub record IsRegistry (h : MessageHandle) : Type 0 where
  pub counted : (n : Text) → contains n h.nodes ≡ contains n h.node_registered
  pub locked : (n : Text) → contains n h.node_locks ≡ contains n h.node_registered
  pub beats :
      (n : Text) → contains n h.node_registered ≡ true → contains n h.keepalive_channel ≡ true
  pub linked : (n c : Text) → lookup n h.node_conns ≡ some c → contains n h.keepalive_channel ≡ true

-- The tables that the registry is about.
abbrev SameTables : MessageHandle → MessageHandle → Type 0
SameTables h h' =
    (h'.nodes ≡ h.nodes)
    × (h'.node_registered ≡ h.node_registered)
    × (h'.node_locks ≡ h.node_locks)
    × (h'.keepalive_channel ≡ h.keepalive_channel)
    × (h'.node_conns ≡ h.node_conns)

SameTables-IsRegistry : (h h' : MessageHandle) → SameTables h h' → IsRegistry h → IsRegistry h'
SameTables-IsRegistry h h' (a, b, c, d, e) r = record {
  counted = λ n. rw (a, b) (r.counted n);
  locked = λ n. rw (c, b) (r.locked n);
  beats = λ n. rw (b, d) (r.beats n);
  linked = λ n k. rw (e, d) (r.linked n k);
}

handle_server-SameTables :
    (v : Text → Bool) (node : Text) (m : HubMessage) (h : MessageHandle)
    → SameTables h (handle_server v node m h)
unfolding handle_server handle_ack handle_keepalive pub_to_controller
handle_server-SameTables v node m h =
    (ground arith, ground arith, ground arith, ground arith, ground arith)

on_register-IsRegistry :
    (node connection : Text) (h : MessageHandle)
    → IsRegistry h
    → IsRegistry (on_register node connection h)
unfolding on_register
on_register-IsRegistry node connection h r = record {
  counted = λ n. ground (arith, r.counted n);
  locked = λ n. ground (arith, r.locked n);
  beats = λ n p. ground (arith, r.beats n, contains-add node n h.keepalive_channel);
  linked = λ n c p. ground (
    arith,
    r.linked n c,
    contains-add node n h.keepalive_channel,
    lookup-put node n connection h.node_conns,
  );
}

register_node-IsRegistry :
    (v : Text → Bool) (id content node : Text) (h : MessageHandle)
    → IsRegistry h
    → IsRegistry (handle_event v (registered id content node) h)
unfolding handle_event register_node
register_node-IsRegistry v id content node h r = elim (Option-cases (lookup node h.node_conns)) [
  | inl p ↦ rw (p, handle_event) r
  | inr (c, p) ↦
      rw (p, handle_event)
        (record {
          counted = λ n. ground (
            arith,
            r.counted n,
            contains-add node n h.nodes,
            contains-add node n h.node_registered,
          );
          locked = λ n. ground (
            arith,
            r.locked n,
            contains-add node n h.node_locks,
            contains-add node n h.node_registered,
          );
          beats = λ n q. ground (
            arith,
            r.beats n,
            r.linked node c p,
            eq_iff node n,
            contains-add node n h.node_registered,
          );
          linked = r.linked;
        })
]

abbrev SameQueues : MessageHandle → MessageHandle → Type 0
SameQueues h h' = SameTables h h' × (h'.message_queue ≡ h.message_queue)

notify-SameQueues :
    (id connection : Text) (code : ExitCode) (node : Text) (h : MessageHandle)
    → SameQueues h (notify_event_queue_error id connection code node h)
unfolding notify_event_queue_error
notify-SameQueues id connection hubio_read_fail node h = ((refl, refl, refl, refl, refl), refl)
notify-SameQueues id connection hubio_write_fail node h = ((refl, refl, refl, refl, refl), refl)
notify-SameQueues id connection message_queue_disconnect node h =
    ((refl, refl, refl, refl, refl), refl)
notify-SameQueues id connection node_stop node h = ((refl, refl, refl, refl, refl), refl)
notify-SameQueues id connection node_disconnect node h = ((refl, refl, refl, refl, refl), refl)

end_connection-SameQueues :
    (id : Text) (code : ExitCode) (node : Text) (h : MessageHandle)
    → SameQueues h (end_connection id code node h)
unfolding end_connection
end_connection-SameQueues id code node h = elim (Option-cases (lookup node h.node_conns)) [
  | inl p ↦ rw (p, end_connection) ((refl, refl, refl, refl, refl), refl)
  | inr (c, p) ↦ rw (p, end_connection) (notify-SameQueues id c code node h)
]

abbrev beats_after : Text → TextSet → TextSet
beats_after node beats = if contains node beats then discard node beats else beats

end_keepalive-tables :
    (node : Text) (h : MessageHandle)
    → end_keepalive node h ≡ record h {
      keepalive_channel = beats_after node h.keepalive_channel;
      effects = (end_keepalive node h).effects;
    }
unfolding end_keepalive
end_keepalive-tables node h = elim (Bool-cases (contains node h.keepalive_channel)) [
  | inl p ↦ rw (p, end_keepalive) refl
  | inr p ↦ rw (p, end_keepalive) refl
]

-- The end of a node leaves the tables in the order of the code.
unregister_node-tables :
    (id content node : Text) (code : ExitCode) (h : MessageHandle)
    → ((unregister_node id content code node h).nodes ≡ discard node h.nodes)
      × ((unregister_node id content code node h).node_registered ≡ discard node h.node_registered)
      × ((unregister_node id content code node h).node_locks ≡ discard node h.node_locks)
      × ((unregister_node id content code node h).node_conns ≡ remove node h.node_conns)
      × ((unregister_node id content code node h).keepalive_channel
          ≡ beats_after node h.keepalive_channel)
unfolding unregister_node
unregister_node-tables id content node code h =
    let ended = end_connection id code node h in
    let dropped : MessageHandle = record ended {
      node_locks = discard node ended.node_locks;
      node_conns = remove node ended.node_conns;
      node_registered = discard node ended.node_registered;
    } in
    let ((a, b, c, d, e), _) = end_connection-SameQueues id code node h in
    let t = end_keepalive-tables node dropped in
    (
      ap (λ x. discard node x.nodes) t ∙ ap (discard node) a,
      ap (λ x. x.node_registered) t ∙ ap (discard node) b,
      ap (λ x. x.node_locks) t ∙ ap (discard node) c,
      ap (λ x. x.node_conns) t ∙ ap (remove node) e,
      ap (λ x. x.keepalive_channel) t ∙ ap (beats_after node) d,
    )

unregister_node-IsRegistry :
    (id content node : Text) (code : ExitCode) (h : MessageHandle)
    → IsRegistry h
    → IsRegistry (unregister_node id content code node h)
unregister_node-IsRegistry id content node code h r =
    let (a, b, c, d, e) = unregister_node-tables id content node code h in
    record {
      counted = λ n.
          rw (a, b)
            (ground (
              arith,
              r.counted n,
              contains-discard node n h.nodes,
              contains-discard node n h.node_registered,
            ));
      locked = λ n.
          rw (c, b)
            (ground (
              arith,
              r.locked n,
              contains-discard node n h.node_locks,
              contains-discard node n h.node_registered,
            ));
      beats = λ n p. rw e (
          ground (
            arith,
            b,
            p,
            r.beats n,
            contains-discard node n h.node_registered,
            contains-discard node n h.keepalive_channel,
          ));
      linked = λ n k p. rw e (
          ground (
            arith,
            d,
            p,
            r.linked n k,
            lookup-remove node n h.node_conns,
            contains-discard node n h.keepalive_channel,
          ));
    }

keepalive_timeout-IsRegistry :
    (node : Text) (h : MessageHandle) → IsRegistry h → IsRegistry (keepalive_timeout node h)
unfolding keepalive_timeout
keepalive_timeout-IsRegistry node h r = elim (Option-cases (lookup node h.node_conns)) [
  | inl p ↦ rw (p, keepalive_timeout) r
  | inr (c, p) ↦
      rw (p, keepalive_timeout)
        (record {
          counted = r.counted;
          locked = r.locked;
          beats = r.beats;
          linked = λ n k q. ground (arith, r.linked n k, lookup-remove node n h.node_conns);
        })
]

handle_event-IsRegistry :
    (v : Text → Bool) (e : NodeEvent) (h : MessageHandle)
    → IsRegistry h
    → IsRegistry (handle_event v e h)
unfolding handle_event
handle_event-IsRegistry v (connected node c) h r = on_register-IsRegistry node c h r
handle_event-IsRegistry v (received node m) h r =
    SameTables-IsRegistry h (handle_server v node m h) (handle_server-SameTables v node m h) r
handle_event-IsRegistry v (registered id content node) h r =
    register_node-IsRegistry v id content node h r
handle_event-IsRegistry v (unregistered id content code node) h r =
    unregister_node-IsRegistry id content node code h r
handle_event-IsRegistry v (timed_out node) h r = keepalive_timeout-IsRegistry node h r

-- The handler that `InitHandler` makes.
abbrev pub new_handle : ℕ → MessageHandle
new_handle limit = record {
  nodes = [];
  node_conns = [];
  node_locks = [];
  node_registered = [];
  keepalive_channel = [];
  message_acks = [];
  node_limit = limit;
  message_queue = empty_queues;
  effects = [];
}

run-IsRegistry :
    (v : Text → Bool) (es : List NodeEvent) (h : MessageHandle)
    → IsRegistry h
    → IsRegistry (handle_events v es h)
unfolding handle_events
run-IsRegistry v [] h r = r
run-IsRegistry v (e ∷ es) h r =
    run-IsRegistry v es (handle_event v e h) (handle_event-IsRegistry v e h r)

-- Over any connections, messages, registrations, ends of nodes and timeouts, starting from the handler that `InitHandler`
-- makes, a node is counted against the limit and has a lock for its writes exactly if it is registered, and a node that is
-- registered or has a connection has a channel for its heart beats.
pub handle_events-IsRegistry :
    (v : Text → Bool) (limit : ℕ) (es : List NodeEvent)
    → IsRegistry (handle_events v es (new_handle limit))
unfolding contains lookup
handle_events-IsRegistry v limit es = run-IsRegistry v es (new_handle limit) (record {
  counted = λ n. refl;
  locked = λ n. refl;
  beats = λ n p. p;
  linked = λ n c p. absurd (ground arith);
})
