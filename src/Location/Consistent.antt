-- ===== src/Location/Consistent.antt =====
-- cache/location.go: the two directions of the node-group relation.
use envoyingresscontroller.Prelude.{
  false, ◌≡◌, refl, subst, none, some, List, [], ◌∷◌, Text, lookup, remove, contains, split, eq_iff,
  eq_refl, arith, Option-cases, inl, inr,
}
use envoyingresscontroller.Constants.{node_group_label, semicolon}
use envoyingresscontroller.Kube.{Node}
use envoyingresscontroller.Location.{
  LocationCache, get_list, ready_status, delete_node_group, update_node_group, join_group,
  join_groups, reset_groups, groups_of, drop_members,
}
use envoyingresscontroller.Location.Members.{
  get_list-put, get_list-remove, contains-drop_members, groups-join_group, nodes-join_group,
  get_list-join_groups,
}

-- A node lists a group exactly when the group lists the node.
pub record IsConsistent (lc : LocationCache) : Type 0 where
  pub agree :
      (n g : Text) → contains g (get_list n lc.node2group) ≡ contains n (get_list g lc.group2node)

-- The groups that a node's label names, none if it has no label.
unfoldable pub label_groups : Node → List Text
label_groups node = elim (lookup node_group_label node.labels) [
  | none ↦ []
  | some label ↦ groups_of (split semicolon label)
]

join_group-IsConsistent :
    (name group : Text) (lc : LocationCache)
    → IsConsistent lc
    → IsConsistent (join_group name group lc)
join_group-IsConsistent name group lc h = record {
  agree = λ n g.
      ground (
        arith,
        groups-join_group name group n g lc,
        nodes-join_group name group n g lc,
        h.agree n g,
      );
}

join_groups-IsConsistent :
    (name : Text) (gs : List Text) (lc : LocationCache)
    → IsConsistent lc
    → IsConsistent (join_groups name gs lc)
unfolding join_groups
join_groups-IsConsistent name [] lc h = h
join_groups-IsConsistent name ([] ∷ gs) lc h = join_groups-IsConsistent name gs lc h
join_groups-IsConsistent name ((b ∷ t) ∷ gs) lc h =
    join_groups-IsConsistent name gs (join_group name (b ∷ t) lc)
      (join_group-IsConsistent name (b ∷ t) lc h)

reset_groups-IsConsistent :
    (name : Text) (lc : LocationCache)
    → get_list name lc.node2group ≡ []
    → IsConsistent lc
    → IsConsistent (reset_groups name lc)
unfolding reset_groups contains
reset_groups-IsConsistent name lc e h = record {
  agree = λ n g. ground (arith, get_list-put name n [] lc.node2group, h.agree n g, eq_iff name n);
}

-- From a consistent cache in which the node is in no group, recording the node keeps the cache
-- consistent.
pub update_node_group-IsConsistent :
    (lc : LocationCache) (node : Node)
    → get_list node.name lc.node2group ≡ []
    → IsConsistent lc
    → IsConsistent (update_node_group lc node)
unfolding update_node_group
update_node_group-IsConsistent lc node e h = elim (Option-cases (ready_status node.conditions)) [
  | inl p ↦ rw (p, update_node_group) h
  | inr (s, p) ↦
      rw (p, update_node_group)
        (elim (Option-cases (lookup node_group_label node.labels)) [
          | inl q ↦ rw (q, update_node_group) h
          | inr (label, q) ↦
              rw (q, update_node_group)
                (join_groups-IsConsistent node.name (split semicolon label)
                  (reset_groups node.name lc) (reset_groups-IsConsistent node.name lc e h))
        ])
]

-- A node with a Ready condition that is in no group comes to be in exactly those of its label.
update_node_group-groups :
    (lc : LocationCache) (node : Node) (status : Text)
    → ready_status node.conditions ≡ some status
    → get_list node.name lc.node2group ≡ []
    → get_list node.name (update_node_group lc node).node2group ≡ label_groups node
unfolding update_node_group label_groups reset_groups
update_node_group-groups lc node status ready e =
    rw (ready, update_node_group)
      (elim (Option-cases (lookup node_group_label node.labels)) [
        | inl q ↦ rw (q, update_node_group, label_groups) e
        | inr (label, q) ↦
            rw (q, update_node_group, label_groups)
              (ground (
                arith,
                get_list-join_groups node.name (split semicolon label) node.name
                    (unfold reset_groups in reset_groups node.name lc),
                get_list-put node.name node.name [] lc.node2group,
                eq_refl node.name,
              ))
      ])

contains_nil : (g : Text) → contains g [] ≡ false
unfolding contains
contains_nil g = refl

deleted-IsConsistent :
    (lc : LocationCache) (name : Text) (parts : List Text)
    → get_list name lc.node2group ≡ groups_of parts
    → IsConsistent lc
    → IsConsistent (record lc {
      node2group = remove name lc.node2group;
      group2node = drop_members name parts lc.group2node;
    })
deleted-IsConsistent lc name parts p h = record {
  agree = λ n g. ground (
    arith,
    get_list-remove name n lc.node2group,
    contains-drop_members name parts n g lc.group2node,
    h.agree n g,
    eq_iff name n,
    contains_nil g,
  );
}

-- From a consistent cache that has recorded the groups of the node's label, deleting the node keeps
-- the cache consistent, and afterwards no group lists the node.
pub delete_node_group-IsConsistent :
    (lc : LocationCache) (node : Node)
    → get_list node.name lc.node2group ≡ label_groups node
    → IsConsistent lc
    → IsConsistent (delete_node_group lc node)
      × (get_list node.name (delete_node_group lc node).node2group ≡ [])
unfolding delete_node_group label_groups
delete_node_group-IsConsistent lc node e h =
    elim (Option-cases (lookup node_group_label node.labels)) [
      | inl q ↦ rw (q, delete_node_group) (h, rw (q, label_groups) at e)
      | inr (label, q) ↦
          rw (q, delete_node_group)
            (
              deleted-IsConsistent lc node.name (split semicolon label) (rw (q, label_groups) at e)
                  h,
              rw (get_list-remove node.name node.name lc.node2group, eq_refl node.name),
            )
    ]

-- When a node's label changes, `DeleteNodeGroup` of the old node and `UpdateNodeGroup` of the new one
-- lead from a consistent cache that has recorded the old label to a consistent cache in which the
-- node is in exactly the groups of the new label, if the new node has a Ready condition.
pub move_node :
    (lc : LocationCache) (old cur : Node) (status : Text)
    → old.name ≡ cur.name
    → ready_status cur.conditions ≡ some status
    → get_list old.name lc.node2group ≡ label_groups old
    → IsConsistent lc
    → let moved = update_node_group (delete_node_group lc old) cur in
      IsConsistent moved × (get_list cur.name moved.node2group ≡ label_groups cur)
move_node lc old cur status same ready recorded h =
    let (kept, gone) = delete_node_group-IsConsistent lc old recorded h in
    let absent : get_list cur.name (delete_node_group lc old).node2group ≡ [] =
      subst (λ n. get_list n (delete_node_group lc old).node2group ≡ []) same gone in
    (
      update_node_group-IsConsistent (delete_node_group lc old) cur absent kept,
      update_node_group-groups (delete_node_group lc old) cur status ready absent,
    )
