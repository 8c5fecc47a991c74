-- ===== src/CloudHub/Fresh.antt =====
-- cloud/pkg/cloudhub/channelq/channelq.go: the stores of the nodes over the messages that
-- `DispatchMessage` receives.
use envoyingresscontroller.Prelude.{
  ℕ, ◌<◌, true, false, not, ◌&&◌, ◌≡◌, refl, ◌⊎◌, inl, inr, Option, none, some, List, [], ◌∷◌, Text,
  Map, lookup, put, is_nil, ◌==◌, eq_iff, if◌then◌else◌, ok, err, panics, arith, subst,
  Option-cases, Outcome-cases, Bool-cases, lookup-put,
}
use envoyingresscontroller.CloudHub.{HubMessage, compare_resource_version, parse_uint}
use envoyingresscontroller.CloudHub.Queues.{
  ChannelMessageQueue, ObjectSyncs, entry, get_node_queue, get_node_store, is_delete_message,
  is_stale, is_superseded, is_dropped, store_message, add_message, get_msg_key, get_node_id,
  is_list_resource, add_list_message, dispatch, dispatch_messages,
}

-- What the store of a node has under a key.
abbrev pub held : Text → Text → ChannelMessageQueue → Option HubMessage
held node key q = lookup key (entry node q.store_pool)

-- The version of the second message is the greater number.
abbrev pub IsNewer : HubMessage → HubMessage → Type 0
IsNewer h m =
    (a : ℕ) × (b : ℕ) × (parse_uint h.message.resource_version ≡ some a)
    × (parse_uint m.message.resource_version ≡ some b)
    × (a < b)

-- What may stand in a place of the store after what stood there: the same message, a deletion, or a
-- newer message if that was no deletion; and anything where nothing stood.
abbrev pub Advances : Option HubMessage → Option HubMessage → Type 0
Advances none o = Unit
Advances (some h) o =
    (o ≡ some h)
    ⊎ ((m : HubMessage) × (o ≡ some m)
        × ((is_delete_message m ≡ true) ⊎ ((is_delete_message h ≡ false) × IsNewer h m)))

Advances-refl : (o : Option HubMessage) → Advances o o
Advances-refl none = tt
Advances-refl (some h) = inl refl

IsNewer-trans : (h m n : HubMessage) → IsNewer h m → IsNewer m n → IsNewer h n
IsNewer-trans h m n (a, b, p, q, l) (c, d, r, s, k) = (a, d, p, s, ground (arith, p, q, r, s))

Advances-trans : (o p q : Option HubMessage) → Advances o p → Advances p q → Advances o q
Advances-trans none p q s t = tt
Advances-trans (some h) p q (inl e) t = subst (λ x. Advances x q) e t
Advances-trans (some h) p q (inr (m, e, s)) t =
    let t' : Advances (some m) q = subst (λ x. Advances x q) e t in
    elim t' [
      | inl f ↦ inr (m, f, s)
      | inr (n, f, inl d) ↦ inr (n, f, inl d)
      | inr (n, f, inr (d, k)) ↦ elim s [
        | inl d' ↦ absurd (ground arith)
        | inr (d', k') ↦ inr (n, f, inr (d', IsNewer-trans h m n k' k))
      ]
    ]

-- A comparison that is not stale is of two numbers, the first the greater.
is_stale-false :
    (h m : HubMessage)
    → is_stale m.message.resource_version h.message.resource_version ≡ ok false
    → IsNewer h m
unfolding is_stale compare_resource_version
is_stale-false h m e = elim (Option-cases (parse_uint m.message.resource_version)) [
  | inl p ↦ absurd (ground arith)
  | inr (b, p) ↦ elim (Option-cases (parse_uint h.message.resource_version)) [
    | inl q ↦ absurd (ground arith)
    | inr (a, q) ↦ (a, b, q, p, ground arith)
  ]
]

-- A message that is not dropped may follow the one that is held.
not_dropped :
    (syncs : ObjectSyncs) (node : Text) (o : Option HubMessage) (m : HubMessage)
    → is_dropped syncs node o m ≡ ok false
    → Advances o (some m)
unfolding is_dropped is_superseded
not_dropped syncs node none m e = tt
not_dropped syncs node (some h) m e = elim (Bool-cases (is_delete_message m)) [
  | inl d ↦ inr (m, refl, inl d)
  | inr d ↦ elim (Bool-cases (is_delete_message h)) [
    | inl d' ↦ absurd (ground arith)
    | inr d' ↦ inr (m, refl, inr (d', is_stale-false h m (ground arith)))
  ]
]

entry-put :
    {A : Type 0} (node n : Text) (v : List A) (pool : Map (List A))
    → entry n (put node v pool) ≡ (if node == n then v else entry n pool)
entry-put node n v pool = ground (arith, lookup-put node n v pool)

-- An entry that is created changes what no entry reads.
entry-get_node_store :
    (node n : Text) (q : ChannelMessageQueue)
    → (entry n (get_node_store node q).1.store_pool ≡ entry n q.store_pool)
      × ((get_node_store node q).0 ≡ entry node q.store_pool)
unfolding get_node_store
entry-get_node_store node n q = elim (Option-cases (lookup node q.store_pool)) [
  | inl p ↦
      rw (p, entry, get_node_store)
        (ground (arith, entry-put node n [] q.store_pool, eq_iff node n, p), refl)
  | inr (s, p) ↦ rw (p, entry, get_node_store) (refl, refl)
]

get_node_queue-store_pool :
    (node : Text) (q : ChannelMessageQueue) → (get_node_queue node q).1.store_pool ≡ q.store_pool
unfolding get_node_queue
get_node_queue-store_pool node q = elim (Option-cases (lookup node q.queue_pool)) [
  | inl p ↦ rw (p, get_node_queue) refl
  | inr (s, p) ↦ rw (p, get_node_queue) refl
]

-- Nothing is held after the two entries have been fetched that was not held before.
fetched :
    (node : Text) (q : ChannelMessageQueue)
    → ((n key : Text) → held n key (get_node_store node (get_node_queue node q).1).1 ≡ held n key q)
      × ((get_node_store node (get_node_queue node q).1).0 ≡ entry node q.store_pool)
fetched node q =
    let e = get_node_queue-store_pool node q in
    let (_, f) = entry-get_node_store node node (get_node_queue node q).1 in
    (
      λ n key. (let (g, _) = entry-get_node_store node n (get_node_queue node q).1 in simp (g, e)),
      simp (f, e),
    )

held-store_message :
    (node key n k : Text) (m : HubMessage) (q : ChannelMessageQueue)
    → held n k (store_message node key m q) ≡ (if node == n && key == k then some m else held n k q)
unfolding store_message
held-store_message node key n k m q =
    rw (entry-put node n (put key m (entry node q.store_pool)) q.store_pool)
      (ground (arith, eq_iff node n, lookup-put key k m (entry node q.store_pool)))

same_held :
    (q q' r : ChannelMessageQueue) (n k : Text)
    → held n k r ≡ held n k q
    → ok r ≡ ok q'
    → Advances (held n k q) (held n k q')
same_held q q' r n k e p =
    let f : r ≡ q' = cc in
    subst (λ x. Advances (held n k q) x) (cc (e, f)) (Advances-refl (held n k q))

-- The message that is stored stands under its key, and every other place is as it was.
stored_held :
    (q q' r : ChannelMessageQueue) (node key : Text) (m : HubMessage) (n k : Text)
    → ((n key : Text) → held n key r ≡ held n key q)
    → Advances (held node key q) (some m)
    → ok (store_message node key m r) ≡ ok q'
    → Advances (held n k q) (held n k q')
stored_held q q' r node key m n k e adv p =
    let f : store_message node key m r ≡ q' = cc in
    let g = held-store_message node key n k m r in
    elim (Bool-cases (node == n && key == k)) [
      | inl i ↦
          let en : node ≡ n = ground (arith, eq_iff node n) in
          let ek : key ≡ k = ground (arith, eq_iff key k) in
          let h : held n k q' ≡ some m = ground (arith, f, g, i) in
          rw h (
            subst (λ x. Advances (held x k q) (some m)) en
              (subst (λ x. Advances (held node x q) (some m)) ek adv))
      | inr i ↦
          let h : held n k q' ≡ held n k q = ground (arith, f, g, i, e n k) in
          rw h (Advances-refl (held n k q))
    ]

add_message-Advances :
    (syncs : ObjectSyncs) (node : Text) (m : HubMessage) (q q' : ChannelMessageQueue)
    → add_message syncs node m q ≡ ok q'
    → (n k : Text) → Advances (held n k q) (held n k q')
unfolding add_message
add_message-Advances syncs node m q q' e n k =
    let (fixed, store) = fetched node q in
    elim (Bool-cases (is_nil m.message.resource_version && not (is_delete_message m))) [
      | inl p ↦ same_held q q' q n k refl (rw p at e)
      | inr p ↦ elim (Outcome-cases (get_msg_key m)) [
        | inr (inl (f, r)) ↦
            same_held q q' (get_node_store node (get_node_queue node q).1).1 n k (fixed n k)
              (rw (p, r, add_message) at e)
        | inr (inr r) ↦
            absurd (let no : panics ≡ ok q' = rw (p, r, add_message) at e in ground arith)
        | inl (key, r) ↦ elim (Outcome-cases (is_dropped syncs node (held node key q) m)) [
          | inr (inl (f, s)) ↦
              same_held q q' (get_node_store node (get_node_queue node q).1).1 n k (fixed n k)
                (rw (p, r, store, s, add_message) at e)
          | inr (inr s) ↦
              absurd
                (let no : panics ≡ ok q' = rw (p, r, store, s, add_message) at e in ground arith)
          | inl (true, s) ↦
              same_held q q' (get_node_store node (get_node_queue node q).1).1 n k (fixed n k)
                (rw (p, r, store, s, add_message) at e)
          | inl (false, s) ↦
              stored_held q q' (get_node_store node (get_node_queue node q).1).1 node key m n k
                fixed (not_dropped syncs node (held node key q) m s)
                (rw (p, r, store, s, add_message) at e)
        ]
      ]
    ]

list_message-held :
    (node n key : Text) (m : HubMessage) (q : ChannelMessageQueue)
    → held n key (add_list_message node m q) ≡ held n key q
unfolding add_list_message
list_message-held node n key m q = refl

dispatch-Advances :
    (syncs : ObjectSyncs) (m : HubMessage) (q q' : ChannelMessageQueue)
    → dispatch syncs m q ≡ ok q'
    → (n k : Text) → Advances (held n k q) (held n k q')
unfolding dispatch
dispatch-Advances syncs m q q' e n k = elim (Outcome-cases (get_node_id m)) [
  | inr (inl (f, p)) ↦ same_held q q' q n k refl (rw (p, dispatch) at e)
  | inr (inr p) ↦ absurd (let no : panics ≡ ok q' = rw (p, dispatch) at e in ground arith)
  | inl (node, p) ↦ elim (Bool-cases (is_list_resource m)) [
    | inl i ↦
        same_held q q' (add_list_message node m q) n k (list_message-held node n k m q)
          (rw (p, i, dispatch) at e)
    | inr i ↦ add_message-Advances syncs node m q q' (rw (p, i, dispatch) at e) n k
  ]
]

-- Over any messages that `DispatchMessage` receives and whatever the lister of object syncs answers, if no
-- version that is compared fails to be a number, then in the store of every node each message that was under
-- a key is still there, or has given way to a deletion, or was no deletion and has given way to a message
-- whose version is a greater number.
pub dispatch_messages-Advances :
    (ms : List (ObjectSyncs × HubMessage)) (q q' : ChannelMessageQueue)
    → dispatch_messages ms q ≡ ok q'
    → (n k : Text) → Advances (held n k q) (held n k q')
unfolding dispatch_messages
dispatch_messages-Advances [] q q' e n k = same_held q q' q n k refl e
dispatch_messages-Advances ((syncs, m) ∷ ms) q q' e n k =
    elim (Outcome-cases (dispatch syncs m q)) [
      | inr (inl (f, p)) ↦
          absurd (let no : err f ≡ ok q' = rw (p, dispatch_messages) at e in ground arith)
      | inr (inr p) ↦
          absurd (let no : panics ≡ ok q' = rw (p, dispatch_messages) at e in ground arith)
      | inl (r, p) ↦
          Advances-trans (held n k q) (held n k r) (held n k q')
            (dispatch-Advances syncs m q r p n k)
            (dispatch_messages-Advances ms r q' (rw (p, dispatch_messages) at e) n k)
    ]
