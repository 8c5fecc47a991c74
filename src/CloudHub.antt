-- ===== src/CloudHub.antt =====
-- cloud/pkg/cloudhub/common/model/types.go, and the comparison of versions and the names of object
-- syncs of cloud/pkg/synccontroller: the messages that CloudHub handles and the tests on them.
pub mod Queues
pub mod Sends
pub mod Nodes
pub mod Fresh
pub mod Retry
pub mod Acks
pub mod SyncNames
pub mod Envoy
pub mod Registry
use envoyingresscontroller.Prelude.{
  ℕ, suc, zero, ◌+◌, ◌-◌, ◌*◌, ◌^◌, Bool, true, false, not, ◌&&◌, ◌||◌, Option, none, some, List,
  [], ◌∷◌, ◌++◌, Text, codes, split, join, length, drop, any, is_nil, eqb, ltb, leb, if◌then◌else◌,
  ◌==◌, Outcome, ok, err, panics, parse_digits,
}
use envoyingresscontroller.Constants.{slash}
use envoyingresscontroller.Message.{
  Message, starts_with, resource_node, delete_operation, get_resource_type,
}

-- What meta.Accessor reads of a Kubernetes object.
pub record ObjectMeta : Type 0 where
  pub uid : Text
  pub deletion_timestamp : Option Text

-- A message with the header's identities, and with the metadata of its content where the content is
-- an object. Of any other content, the message has the string, or nothing where it is none.
pub record HubMessage : Type 0 where
  pub id : Text
  pub parent_id : Text
  pub message : Message
  pub metadata : Option ObjectMeta

-- A getter with its error dropped: Go then has the empty string.
abbrev pub or_empty : Outcome Text → Text
or_empty (ok t) = t
or_empty (err e) = []
or_empty panics = []

-- strings.Contains(t, part)
unfoldable pub has_part : Text → Text → Bool
unfolding starts_with
has_part part [] = is_nil part
has_part part (b ∷ t) = starts_with part (b ∷ t) || has_part part t

-- NewResource; the prefix is that of the node of `info`, if there is one.
unfoldable pub new_resource : Text → Text → Option Text → Text
new_resource res_type res_id info =
    let prefix : Text = elim info [
      | none ↦ []
      | some node ↦ resource_node ++ slash ∷ (node ++ slash ∷ [])
    ] in
    if is_nil res_id then prefix ++ res_type else prefix ++ (res_type ++ slash ∷ res_id)

-- IsNodeStopped
unfoldable pub is_node_stopped : HubMessage → Bool
is_node_stopped m =
    or_empty (get_resource_type m.message) == resource_node
    && m.message.operation == delete_operation

abbrev pub cloud_module_array : List Text
cloud_module_array =
    codes "cloudhub"
    ∷ codes "cloudStream"
    ∷ codes "devicecontroller"
    ∷ codes "edgecontroller"
    ∷ codes "synccontroller"
    ∷ []

-- IsFromEdge
unfoldable pub is_from_edge : HubMessage → Bool
is_from_edge m = not (any (λ item. m.message.source == item) cloud_module_array)

abbrev pub cloud_operations : List (Text × Text)
cloud_operations =
    (codes "membership", codes "get")
    ∷ (codes "twin", codes "delta")
    ∷ (codes "twin", codes "document")
    ∷ (codes "twin", codes "get")
    ∷ (codes "auth_info", codes "get")
    ∷ (codes "node", codes "deleted")
    ∷ []

-- IsToEdge
unfoldable pub is_to_edge : HubMessage → Bool
unfolding has_part starts_with
is_to_edge m =
    let whole = m.message.resource in
    let tokens = split slash whole in
    let resource =
      if starts_with resource_node whole && leb 3 (length tokens)
      then join slash (drop 2 tokens)
      else whole in
    not (m.message.source == codes "edgemgr")
    || not (any (λ (res, op). m.message.operation == op && has_part res resource) cloud_operations)

-- strconv.ParseUint(s, 10, 64), with `none` for an error: digits only, one at least, and no overflow.
unfoldable pub parse_uint : Text → Option ℕ
unfolding parse_digits
parse_uint s = elim (parse_digits 0 s) [
  | none ↦ none
  | some n ↦ if is_nil s then none else if ltb n (2 ^ 64) then some n else none
]

-- The 1, 0 and -1 of `CompareResourceVersion`.
pub data Compared : Type 0 where
  newer : Compared
  same : Compared
  older : Compared

-- CompareResourceVersion: a version that is no number is a panic.
unfoldable pub compare_resource_version : Text → Text → Outcome Compared
unfolding parse_uint
compare_resource_version rva rvb = elim (parse_uint rva) [
  | none ↦ panics
  | some a ↦ elim (parse_uint rvb) [
    | none ↦ panics
    | some b ↦ ok (if ltb b a then newer else if eqb a b then same else older)
  ]
]

abbrev pub dot : ℕ
dot = b'.'

-- BuildObjectSyncName
unfoldable pub build_object_sync_name : Text → Text → Text
build_object_sync_name node_name uid = node_name ++ dot ∷ uid

-- tmps[:len(tmps)-1] and tmps[len(tmps)-1]; strings.Split gives one part at least.
unfoldable pub but_last : List Text → List Text
but_last [] = []
but_last (p ∷ []) = []
but_last (p ∷ q ∷ ps) = p ∷ but_last (q ∷ ps)

unfoldable pub last_part : List Text → Text
last_part [] = []
last_part (p ∷ []) = p
last_part (p ∷ q ∷ ps) = last_part (q ∷ ps)

-- getNodeName
unfoldable pub get_node_name : Text → Text
unfolding but_last
get_node_name sync_name = join dot (but_last (split dot sync_name))

-- getObjectUID
unfoldable pub get_object_uid : Text → Text
unfolding last_part
get_object_uid sync_name = last_part (split dot sync_name)
