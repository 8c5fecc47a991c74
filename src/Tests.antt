-- ===== src/Tests.antt =====
-- Sample objects for the tests: a small cluster with one ingress, one service and one edge node.
pub mod Calls
pub mod Delivered
pub mod Hub
pub mod Made
pub mod Named
pub mod Placed
pub mod Translated
pub mod Twins
use envoyingresscontroller.Prelude.{
  ℕ, Bool, true, false, ◌&&◌, Option, none, some, List, [], ◌∷◌, ◌++◌, Text, Map, codes, is_nil,
  split, if◌then◌else◌, ◌==◌, get_elem?,
}
use envoyingresscontroller.Constants.{
  slash, ingress_class_annotation, envoy_ingress_controller_name,
  envoy_ingress_nodegroup_annotation, node_group_label,
}
use envoyingresscontroller.Kube
use envoyingresscontroller.Kube.{
  ObjectMeta, Node, NodeCondition, Ingress, IngressRule, IngressTls, HttpIngressPath,
  IngressBackend, Service, ServicePort, Listers, Answer, found, not_found,
}
use envoyingresscontroller.Envoy.{TlsSecret}
use envoyingresscontroller.External.{External}
use envoyingresscontroller.Resource
use envoyingresscontroller.Resource.{Resource, Spec}
use envoyingresscontroller.Message.{ContextMessageLayer}
use envoyingresscontroller.Controller.{Controller, initialize_fields}

abbrev pub named : Text → Text → Map Text → Map Text → ObjectMeta
named namespace name annotations labels = record {
  name = name;
  namespace = namespace;
  uid = [];
  resource_version = codes "1";
  annotations = annotations;
  labels = labels;
}

-- The bytes of a secret without content are its name, and nothing else is encoded.
abbrev pub encode_secret : Spec → Option Text
encode_secret (Resource.secret s) =
    if is_nil s.certificate_chain && is_nil s.private_key then some s.name else none
encode_secret _ = none

abbrev pub split_key : Text → Option (Text × Text)
split_key key = parts (split slash key)
  where
    parts : List Text → Option (Text × Text)
    parts (n ∷ m ∷ []) = some (n, m)
    parts _ = none

abbrev pub digests : External
digests = record {
  sha256_hex = λ t. codes "e3b0c44298fc";
  sha1_hex_5 = λ t. t;
  key_func = λ i. i.namespace ++ slash ∷ i.name;
  split_meta_namespace_key = split_key;
  marshal = encode_secret;
  encode_to_string = λ t. t;
}

abbrev pub layer : ContextMessageLayer
layer = record {
  send_module_name = codes "cloudhub";
  send_router_module_name = codes "router";
  receive_module_name = codes "envoyingresscontroller";
  response_module_name = codes "cloudhub";
}

abbrev pub initial : Controller
initial = initialize_fields layer

abbrev pub web_port : ServicePort
web_port = record { name = codes "web"; protocol = codes "TCP"; port = 80 }

abbrev pub admin_port : ServicePort
admin_port = record { name = codes "admin"; protocol = codes "TCP"; port = 81 }

abbrev pub shop : Service
shop = record {
  meta = named (codes "ns") (codes "shop") [] [];
  selector = (codes "app", codes "shop") ∷ [];
  external_name = [];
  ports = web_port ∷ admin_port ∷ [];
}

abbrev pub shop_path : HttpIngressPath
shop_path = record {
  path = codes "/";
  path_type = some Kube.prefix;
  backend = record {
    service = some (record { name = codes "shop"; port = record { name = []; number = 80 } });
  };
}

abbrev pub front : Ingress
front = record {
  meta =
      named (codes "ns") (codes "front")
        ((ingress_class_annotation, envoy_ingress_controller_name)
          ∷ (envoy_ingress_nodegroup_annotation, codes "east")
          ∷ [])
        [];
  ingress_class_name = none;
  default_backend = none;
  tls = [];
  rules = record { host = codes "a.b"; http = some (shop_path ∷ []) } ∷ [];
}

abbrev pub edge_1 : Node
edge_1 = record {
  meta = named [] (codes "edge1") [] ((node_group_label, codes "east") ∷ []);
  conditions = record { kind = codes "Ready"; status = codes "True" } ∷ [];
}

abbrev pub edge_1_moved : Node
edge_1_moved = record {
  meta = named [] (codes "edge1") [] ((node_group_label, codes "west;north") ∷ []);
  conditions = record { kind = codes "Ready"; status = codes "True" } ∷ [];
}

-- Listers that hold the ingress and the service.
abbrev pub listers : Listers
listers = record {
  ingresses_in = λ n. some (front ∷ []);
  v1beta1_ingresses_in = λ n. some [];
  services_in = λ n. some (shop ∷ []);
  all_ingresses = some (front ∷ []);
  all_v1beta1_ingresses = some [];
  all_nodes = some (edge_1 ∷ []);
  get_ingress = λ n m. if m == codes "front" then found front else not_found;
  get_v1beta1_ingress = λ n m. not_found;
  get_service = λ n m. if m == codes "shop" then found shop else not_found;
  get_endpoints = λ n m. not_found;
  get_secret = λ n m. not_found;
}

-- A secret with no content, as the edge gets it.
abbrev pub cert : Resource
cert = record {
  name = codes "cert";
  namespace = codes "ns";
  resource_version = codes "1";
  node_group = codes "east" ∷ [];
  ingress_ref = codes "ns/front" ∷ [];
  spec = Resource.secret (record { name = codes "cert"; certificate_chain = []; private_key = [] });
}
