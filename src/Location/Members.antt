-- ===== src/Location/Members.antt =====
-- cache/location.go: what one round of each loop does to the two maps, key by key.
use envoyingresscontroller.Prelude.{
  not, ◌&&◌, ◌||◌, ◌≡◌, List, [], ◌∷◌, ◌++◌, Text, Map, lookup, put, remove, discard, contains,
  if◌then◌else◌, ◌==◌, eq_iff, lookup-put, lookup-remove, contains-discard, contains-append, arith,
  Option-cases, inl, inr,
}
use mathlib.Core.List.{append-nil, append_assoc}
use envoyingresscontroller.Location.{
  LocationCache, get_list, drop_member, drop_members, join_group, join_groups, groups_of,
}

pub get_list-put :
    (k j : Text) (v : List Text) (m : Map (List Text))
    → get_list j (put k v m) ≡ (if k == j then v else get_list j m)
unfolding get_list
get_list-put k j v m = ground (arith, lookup-put k j v m)

pub get_list-remove :
    (k j : Text) (m : Map (List Text))
    → get_list j (remove k m) ≡ (if k == j then [] else get_list j m)
unfolding get_list
get_list-remove k j m = ground (arith, lookup-remove k j m)

contains-one : (n k : Text) → contains n (k ∷ []) ≡ (k == n)
unfolding contains
contains-one n k = ground arith

-- Dropping a node from one group takes that node from that group and changes nothing else.
pub contains-drop_member :
    (name group n g : Text) (m : Map (List Text))
    → contains n (get_list g (drop_member name group m))
      ≡ (not (group == g && name == n) && contains n (get_list g m))
unfolding get_list drop_member contains
contains-drop_member name group n g m = elim (Option-cases (lookup group m)) [
  | inl e ↦ ground (arith, e, eq_iff group g)
  | inr (nodes, e) ↦ ground (
    arith,
    e,
    eq_iff group g,
    lookup-put group g (discard name nodes) m,
    contains-discard name n nodes,
  )
]

-- The loop takes the node from every group that the label names, and nothing else from any group.
pub contains-drop_members :
    (name : Text) (gs : List Text) (n g : Text) (m : Map (List Text))
    → contains n (get_list g (drop_members name gs m))
      ≡ (not (contains g (groups_of gs) && name == n) && contains n (get_list g m))
unfolding drop_members groups_of contains
contains-drop_members name [] n g m = ground arith
contains-drop_members name ([] ∷ gs) n g m = contains-drop_members name gs n g m
contains-drop_members name ((b ∷ t) ∷ gs) n g m = ground (
  arith,
  contains-drop_members name gs n g (drop_member name (b ∷ t) m),
  contains-drop_member name (b ∷ t) n g m,
)

-- Joining a group records the group at the node and the node at the group.
pub groups-join_group :
    (name group n g : Text) (lc : LocationCache)
    → contains g (get_list n (join_group name group lc).node2group)
      ≡ (name == n && group == g || contains g (get_list n lc.node2group))
unfolding join_group
groups-join_group name group n g lc = ground (
  arith,
  get_list-put name n (get_list name lc.node2group ++ group ∷ []) lc.node2group,
  contains-append g (get_list name lc.node2group) (group ∷ []),
  contains-one g group,
  eq_iff name n,
)

pub nodes-join_group :
    (name group n g : Text) (lc : LocationCache)
    → contains n (get_list g (join_group name group lc).group2node)
      ≡ (name == n && group == g || contains n (get_list g lc.group2node))
unfolding join_group
nodes-join_group name group n g lc = ground (
  arith,
  get_list-put group g (get_list group lc.group2node ++ name ∷ []) lc.group2node,
  contains-append n (get_list group lc.group2node) (name ∷ []),
  contains-one n name,
  eq_iff group g,
)

get_list-join_group :
    (name group n : Text) (lc : LocationCache)
    → get_list n (join_group name group lc).node2group
      ≡ (if name == n then get_list n lc.node2group ++ group ∷ [] else get_list n lc.node2group)
unfolding join_group
get_list-join_group name group n lc = ground (
  arith,
  get_list-put name n (get_list name lc.node2group ++ group ∷ []) lc.node2group,
  eq_iff name n,
)

-- What a loop of joins leaves at a node.
pub get_list-join_groups :
    (name : Text) (gs : List Text) (n : Text) (lc : LocationCache)
    → get_list n (join_groups name gs lc).node2group
      ≡ (if name == n then get_list n lc.node2group ++ groups_of gs else get_list n lc.node2group)
unfolding join_groups groups_of
get_list-join_groups name [] n lc = ground (arith, append-nil (get_list n lc.node2group))
get_list-join_groups name ([] ∷ gs) n lc = get_list-join_groups name gs n lc
get_list-join_groups name ((b ∷ t) ∷ gs) n lc = ground (
  arith,
  get_list-join_groups name gs n (join_group name (b ∷ t) lc),
  get_list-join_group name (b ∷ t) n lc,
  append_assoc (get_list n lc.node2group) ((b ∷ t) ∷ []) (groups_of gs),
)
