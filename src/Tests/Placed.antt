-- ===== src/Tests/Placed.antt =====
-- The location cache, with one node that joins a group and moves to two others.
use envoyingresscontroller.Prelude.{
  ◌≡◌, refl, some, [], ◌∷◌, Text, codes, contains, split, lookup, ◌==◌, put, ◌&&◌,
}
use envoyingresscontroller.Location.{
  LocationCache, get_list, ready_status, update_edge_node, update_node_group, delete_node_group,
  groups_of, join_groups, join_group, reset_groups,
}
use envoyingresscontroller.Location.Consistent.{
  IsConsistent, label_groups, update_node_group-IsConsistent, delete_node_group-IsConsistent,
  move_node,
}
use envoyingresscontroller.Controller.Dispatch.{nodes_to_send}
use envoyingresscontroller.Controller.Recipients.{
  nodes_to_send_exact, is_ready, in_groups, IsDistinct,
}
use envoyingresscontroller.Tests.{edge_1, edge_1_moved}

abbrev empty : LocationCache
empty = record { edge_nodes = []; node2group = []; group2node = [] }

empty-IsConsistent : IsConsistent empty
unfolding get_list lookup contains
empty-IsConsistent = record { agree = λ n g. refl }

absent : get_list (codes "edge1") empty.node2group ≡ []
unfolding get_list lookup
absent = refl

update_node_group-IsConsistent_example : IsConsistent (update_node_group empty edge_1)
update_node_group-IsConsistent_example =
    update_node_group-IsConsistent empty edge_1 absent empty-IsConsistent

recorded :
    get_list (codes "edge1") (update_node_group empty edge_1).node2group ≡ label_groups edge_1
unfolding get_list lookup update_node_group label_groups ◌==◌ ready_status groups_of join_groups
    split join_group put reset_groups
recorded = refl

delete_node_group-IsConsistent_example :
    IsConsistent (delete_node_group (update_node_group empty edge_1) edge_1)
    × (get_list
          (codes "edge1")
          (delete_node_group (update_node_group empty edge_1) edge_1).node2group
        ≡ [])
delete_node_group-IsConsistent_example =
    delete_node_group-IsConsistent (update_node_group empty edge_1) edge_1 recorded
      (update_node_group-IsConsistent empty edge_1 absent empty-IsConsistent)

is_ready_now : ready_status edge_1_moved.conditions ≡ some (codes "True")
unfolding ready_status ◌==◌
is_ready_now = refl

move_node_example :
    let moved =
      update_node_group (delete_node_group (update_node_group empty edge_1) edge_1) edge_1_moved in
    IsConsistent moved × (get_list (codes "edge1") moved.node2group ≡ label_groups edge_1_moved)
move_node_example =
    move_node (update_node_group empty edge_1) edge_1 edge_1_moved (codes "True") refl is_ready_now
      recorded (update_node_group-IsConsistent empty edge_1 absent empty-IsConsistent)

nodes_to_send_exact_example :
    ((n : Text)
      → contains n (
          nodes_to_send
            (update_node_group (update_edge_node empty edge_1) edge_1)
            (codes "east" ∷ [])
            [])
        ≡ (is_ready (update_node_group (update_edge_node empty edge_1) edge_1) n
            && in_groups
                (update_node_group (update_edge_node empty edge_1) edge_1)
                n
                (codes "east" ∷ [])))
    × IsDistinct (
        nodes_to_send
          (update_node_group (update_edge_node empty edge_1) edge_1)
          (codes "east" ∷ [])
          [])
nodes_to_send_exact_example =
    nodes_to_send_exact (update_node_group (update_edge_node empty edge_1) edge_1)
      (codes "east" ∷ [])
