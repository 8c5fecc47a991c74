-- ===== src/Message/RoundTrip.antt =====
-- What `BuildResource` writes, the getters and CloudHub read back.
use envoyingresscontroller.Prelude.{
  true, ◌≡◌, ◌≢◌, refl, ap, ◌∙◌, List, [], ◌∷◌, ◌++◌, Text, split, join, split-join, All, Lacks,
  arith, ok,
}
use mathlib.Core.List.{append_assoc}
use envoyingresscontroller.Constants.{slash}
use envoyingresscontroller.Message.{
  Message, build_resource, resource_node, get_node_id, get_namespace, get_resource_type,
  get_resource_name, is_router_msg, send, ContextMessageLayer, trim_message, starts_with,
}

abbrev pub resource_parts : Text → Text → Text → Text → List Text
resource_parts node namespace kind name = resource_node ∷ node ∷ namespace ∷ kind ∷ name ∷ []

five_parts :
    (node namespace kind name : Text)
    → (resource_node ++ slash ∷ (node ++ slash ∷ (namespace ++ slash ∷ kind))) ++ slash ∷ name
      ≡ join slash (resource_parts node namespace kind name)
unfolding join
five_parts node namespace kind name = simp append_assoc

-- The resource that is built is the five parts, joined.
pub build_resource-join :
    (node namespace kind name r : Text)
    → name ≢ []
    → build_resource node namespace kind name ≡ ok r
    → r ≡ join slash (resource_parts node namespace kind name)
unfolding build_resource join
build_resource-join node namespace kind [] r h e = absurd (h refl)
build_resource-join node namespace kind (b ∷ t) r h e =
    ground (arith, five_parts node namespace kind (b ∷ t))

node-Lacks : Lacks slash resource_node
node-Lacks = omega arith

pub split-build_resource :
    (node namespace kind name r : Text)
    → name ≢ []
    → All (Lacks slash) (node ∷ namespace ∷ kind ∷ name ∷ [])
    → build_resource node namespace kind name ≡ ok r
    → split slash r ≡ resource_parts node namespace kind name
split-build_resource node namespace kind name r h l e =
    ap (split slash) (build_resource-join node namespace kind name r h e)
    ∙ split-join slash resource_node (node ∷ namespace ∷ kind ∷ name ∷ []) (node-Lacks, l)

-- From a message whose resource `BuildResource` has built of parts without a slash, with a name that is not empty, the
-- getters read the node, the namespace, the type and the name, and `Send` passes it to CloudHub's module
-- and not to the router.
pub build_resource-getters :
    (cml : ContextMessageLayer) (m : Message) (node namespace kind name : Text)
    → name ≢ []
    → All (Lacks slash) (node ∷ namespace ∷ kind ∷ name ∷ [])
    → build_resource node namespace kind name ≡ ok m.resource
    → (get_node_id m ≡ ok node)
      × (get_namespace m ≡ ok namespace)
      × (get_resource_type m ≡ ok kind)
      × (get_resource_name m ≡ ok name)
      × (send cml m ≡ (cml.send_module_name, m))
unfolding get_node_id get_namespace get_resource_type get_resource_name send is_router_msg
build_resource-getters cml m node namespace kind name h l e =
    let p = split-build_resource node namespace kind name m.resource h l e in ground (arith, p)

starts_with_node :
    (node namespace kind name r : Text)
    → name ≢ []
    → build_resource node namespace kind name ≡ ok r
    → starts_with resource_node r ≡ true
unfolding starts_with join
starts_with_node node namespace kind name r h e =
    ground (arith, build_resource-join node namespace kind name r h e)

-- CloudHub trims such a message to <namespace>/<type>/<name>.
pub trim_message-build_resource :
    (m : Message) (node namespace kind name : Text)
    → name ≢ []
    → All (Lacks slash) (node ∷ namespace ∷ kind ∷ name ∷ [])
    → build_resource node namespace kind name ≡ ok m.resource
    → trim_message m ≡ record m { resource = join slash (namespace ∷ kind ∷ name ∷ []) }
unfolding trim_message
trim_message-build_resource m node namespace kind name h l e = ground (
  arith,
  split-build_resource node namespace kind name m.resource h l e,
  starts_with_node node namespace kind name m.resource h e,
)
