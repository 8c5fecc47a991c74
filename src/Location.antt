-- ===== src/Location.antt =====
-- cloud/pkg/envoyingresscontroller/cache/location.go: which edge nodes there are, how they are, and
-- which node groups they belong to. The maps of the cache that no function of the file uses
-- (Secrets, Endpoints, Clusters, Roultes, Listeners) are left out, and so is its mutex, which each
-- function holds for its whole body.
pub mod Members
pub mod Consistent
use envoyingresscontroller.Prelude.{
  Bool, true, false, not, Option, none, some, List, [], ◌∷◌, ◌++◌, Text, TextSet, Map, lookup, put,
  remove, discard, contains, split, is_nil, if◌then◌else◌, ◌==◌, get_text,
}
use envoyingresscontroller.Constants.{node_group_label, ready_condition, semicolon}
use envoyingresscontroller.Kube.{Node, NodeCondition}

-- LocationCache
pub record LocationCache : Type 0 where
  pub edge_nodes : Map Text
  pub node2group : Map (List Text)
  pub group2node : Map (List Text)

-- A missing key of a map of slices is a nil slice.
unfoldable pub get_list : Text → Map (List Text) → List Text
get_list k m = elim (lookup k m) [ none ↦ [] | some l ↦ l ]

-- IsEdgeNode
unfoldable pub is_edge_node : LocationCache → Text → Bool
is_edge_node lc name = elim (lookup name lc.edge_nodes) [ none ↦ false | some _ ↦ true ]

-- GetNodeStatus
unfoldable pub get_node_status : LocationCache → Text → Option Text
get_node_status lc name = lookup name lc.edge_nodes

-- The status of the first condition of type Ready.
unfoldable pub ready_status : List NodeCondition → Option Text
ready_status [] = none
ready_status (c ∷ cs) = if c.kind == ready_condition then some c.status else ready_status cs

store_status : LocationCache → Text → Option Text → LocationCache
store_status lc name none = lc
store_status lc name (some status) = record lc { edge_nodes = put name status lc.edge_nodes }

-- UpdateEdgeNode
unfoldable pub update_edge_node : LocationCache → Node → LocationCache
unfolding store_status
update_edge_node lc node = elim (lookup node_group_label node.labels) [
  | none ↦ lc
  | some _ ↦ store_status lc node.name (ready_status node.conditions)
]

-- DeleteEdgeNode
unfoldable pub delete_edge_node : LocationCache → Node → LocationCache
delete_edge_node lc node = record lc { edge_nodes = remove node.name lc.edge_nodes }

-- One round of the loop of `DeleteNodeGroup`: a group that is not recorded stays so.
unfoldable pub drop_member : Text → Text → Map (List Text) → Map (List Text)
drop_member name group m = elim (lookup group m) [
  | none ↦ m
  | some nodes ↦ put group (discard name nodes) m
]

unfoldable pub drop_members : Text → List Text → Map (List Text) → Map (List Text)
drop_members name [] m = m
drop_members name (g ∷ gs) m = drop_members name gs (if is_nil g then m else drop_member name g m)

-- DeleteNodeGroup
unfoldable pub delete_node_group : LocationCache → Node → LocationCache
delete_node_group lc node = elim (lookup node_group_label node.labels) [
  | none ↦ lc
  | some label ↦ record lc {
    node2group = remove node.name lc.node2group;
    group2node = drop_members node.name (split semicolon label) lc.group2node;
  }
]

-- One round of the loop of `UpdateNodeGroup`.
unfoldable pub join_group : Text → Text → LocationCache → LocationCache
join_group name group lc = record lc {
  node2group = put name (get_list name lc.node2group ++ group ∷ []) lc.node2group;
  group2node = put group (get_list group lc.group2node ++ name ∷ []) lc.group2node;
}

unfoldable pub join_groups : Text → List Text → LocationCache → LocationCache
join_groups name [] lc = lc
join_groups name (g ∷ gs) lc = join_groups name gs (if is_nil g then lc else join_group name g lc)

-- Node2group[name] = nil
unfoldable pub reset_groups : Text → LocationCache → LocationCache
reset_groups name lc = record lc { node2group = put name [] lc.node2group }

-- UpdateNodeGroup
unfoldable pub update_node_group : LocationCache → Node → LocationCache
update_node_group lc node = elim (ready_status node.conditions) [
  | none ↦ lc
  | some _ ↦ elim (lookup node_group_label node.labels) [
    | none ↦ lc
    | some label ↦ join_groups node.name (split semicolon label) (reset_groups node.name lc)
  ]
]

-- The groups that a label names: its parts that are not empty.
unfoldable pub groups_of : List Text → List Text
groups_of [] = []
groups_of (g ∷ gs) = if is_nil g then groups_of gs else g ∷ groups_of gs
