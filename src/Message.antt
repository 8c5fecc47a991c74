-- ===== src/Message.antt =====
-- cloud/pkg/envoyingresscontroller/messagelayer (util.go, context.go) and `trimMessage` of
-- cloud/pkg/cloudhub/handler/messagehandler.go: the resource of a beehive message,
-- node/<node>/<namespace>/<type>/<name>, and where a message is sent. The header's identity and
-- times and the fields that nothing here reads are left out.
pub mod RoundTrip
use envoyingresscontroller.Prelude.{
  ℕ, suc, zero, Bool, true, false, ◌&&◌, ◌||◌, Option, none, some, List, [], ◌∷◌, ◌++◌, Text, codes,
  split, join, length, get_elem?, drop, is_nil, eqb, ltb, if◌then◌else◌, ◌==◌, Outcome, ok, err,
  or_err, missing_parameter, index_not_found,
}
use envoyingresscontroller.Constants.{slash}

-- model.Message
pub record Message : Type 0 where
  pub resource_version : Text
  pub source : Text
  pub group : Text
  pub resource : Text
  pub operation : Text
  pub content : Text

abbrev pub insert_operation : Text
insert_operation = codes "insert"

abbrev pub delete_operation : Text
delete_operation = codes "delete"

abbrev pub resource_node : Text
resource_node = codes "node"

-- BuildResource
unfoldable pub build_resource : Text → Text → Text → Text → Outcome Text
build_resource node_id namespace resource_type resource_id =
    if is_nil namespace || is_nil resource_type || is_nil node_id
    then err missing_parameter
    else ok (
        (resource_node ++ slash ∷ (node_id ++ slash ∷ (namespace ++ slash ∷ resource_type)))
        ++ (if is_nil resource_id then [] else slash ∷ resource_id))

-- BuildResourceForRouter
unfoldable pub build_resource_for_router : Text → Text → Outcome Text
build_resource_for_router resource_type resource_id =
    if is_nil resource_id || is_nil resource_type
    then err missing_parameter
    else ok (resource_type ++ slash ∷ resource_id)

-- The shared body of the four functions below: the part at an index, if there are enough parts.
unfoldable pub resource_part : ℕ → Message → Outcome Text
resource_part index msg = or_err (get_elem? (split slash msg.resource) index) index_not_found

-- GetNodeID
unfoldable pub get_node_id : Message → Outcome Text
unfolding resource_part
get_node_id = resource_part 1

-- GetNamespace, which the edge has a copy of in edge/pkg/envoycontrolplane/process.go
unfoldable pub get_namespace : Message → Outcome Text
unfolding resource_part
get_namespace = resource_part 2

-- GetResourceType
unfoldable pub get_resource_type : Message → Outcome Text
unfolding resource_part
get_resource_type = resource_part 3

-- GetResourceName
unfoldable pub get_resource_name : Message → Outcome Text
unfolding resource_part
get_resource_name = resource_part 4

-- ContextMessageLayer
pub record ContextMessageLayer : Type 0 where
  pub send_module_name : Text
  pub send_router_module_name : Text
  pub receive_module_name : Text
  pub response_module_name : Text

-- isRouterMsg
unfoldable pub is_router_parts : List Text → Bool
is_router_parts (kind ∷ name ∷ []) = kind == codes "rule" || kind == codes "ruleendpoint"
is_router_parts _ = false

unfoldable pub is_router_msg : Message → Bool
unfolding is_router_parts
is_router_msg msg = is_router_parts (split slash msg.resource)

-- Send: the beehive module that gets the message.
unfoldable pub send : ContextMessageLayer → Message → Text × Message
send cml msg =
    if is_router_msg msg then (cml.send_router_module_name, msg) else (cml.send_module_name, msg)

-- Response
unfoldable pub response : ContextMessageLayer → Message → Text × Message
response cml msg = (cml.response_module_name, msg)

unfoldable pub starts_with : Text → Text → Bool
starts_with [] t = true
starts_with (a ∷ s) [] = false
starts_with (a ∷ s) (b ∷ t) = eqb a b && starts_with s t

-- trimMessage: CloudHub takes the first two parts off before a message goes to its node.
unfoldable pub trim_message : Message → Message
unfolding starts_with
trim_message msg =
    if starts_with resource_node msg.resource
    then if ltb (length (split slash msg.resource)) 3
      then msg
      else record msg { resource = join slash (drop 2 (split slash msg.resource)) }
    else msg
