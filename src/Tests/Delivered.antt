-- ===== src/Tests/Delivered.antt =====
-- A secret without content, from the controller to the maps of the edge.
use envoyingresscontroller.Prelude.{
  List, ◌==◌, split, join, true, ◌≡◌, refl, Option, some, none, [], ◌∷◌, Text, codes, lookup, All,
  Lacks, arith, ok,
}
use envoyingresscontroller.Constants.{slash, envoy_ingress_controller_name}
use envoyingresscontroller.Resource
use envoyingresscontroller.Resource.{Resource, Spec}
use envoyingresscontroller.Message.{
  Message, trim_message, insert_operation, delete_operation, build_resource,
}
use envoyingresscontroller.Controller.Dispatch.{dispatch_message, resource_kind}
use envoyingresscontroller.Edge
use envoyingresscontroller.Edge.{Kind, ControlPlane, new_control_plane, at}
use envoyingresscontroller.Edge.Process.{
  EdgeExternal, returns, process_insert, process_delete, parse_resource, decode_content,
  decode_deleted, run_envoy_control_plane,
}
use envoyingresscontroller.Edge.Keyed.{IsKeyed, run_envoy_control_plane-IsKeyed}
use envoyingresscontroller.Edge.Stores.{LacksName}
use envoyingresscontroller.Edge.Delivery.{IsInverse, spec_kind, edge_key}
use envoyingresscontroller.Edge.Arrival.{
  stored_as, process_insert-dispatched, process_delete-dispatched,
}
use envoyingresscontroller.Tests.{digests, cert, encode_secret}

abbrev decode_secret : Kind → Text → Option Spec
decode_secret Edge.secret b =
    some (Resource.secret (record { name = b; certificate_chain = []; private_key = [] }))
decode_secret _ b = none

abbrev decoders : EdgeExternal
decoders = record {
  json_content = some;
  unquote = some;
  decode_string = some;
  unmarshal = decode_secret;
  json_message = λ s. some [];
  database_accepts = λ k r. true;
}

decode-encode :
    (s : Spec) (k : Kind) (b : Text)
    → spec_kind s ≡ some k
    → encode_secret s ≡ some b
    → decode_secret k b ≡ some s
decode-encode (Resource.secret s) k b p q = ground arith
decode-encode (Resource.endpoint a) k b p q = cc
decode-encode (Resource.cluster c) k b p q = cc
decode-encode (Resource.route r) k b p q = cc
decode-encode (Resource.listener l) k b p q = cc
decode-encode Resource.other k b p q = cc

inverse : IsInverse digests decoders
inverse = record {
  quoted = λ b. b;
  quotes = λ b. refl;
  unquotes = λ b. refl;
  decodes = λ b. refl;
  unmarshals = decode-encode;
  json_form = λ s. [];
  has_json = λ s. refl;
}

abbrev message : Text → Message
message opr = record {
  resource_version = codes "1";
  source = envoy_ingress_controller_name;
  group = codes "envoy";
  resource = codes "node/edge1/ns/Secret/envoycert";
  operation = opr;
  content = codes "cert";
}

dispatches : (opr : Text) → dispatch_message digests cert opr (codes "edge1") ≡ ok (message opr)
unfolding dispatch_message build_resource resource_kind
dispatches opr = refl

no_slash : All (Lacks slash) (codes "edge1" ∷ cert.namespace ∷ cert.name ∷ [])
no_slash = (omega arith, (omega arith, (omega arith, tt)))

abbrev plane : ControlPlane
plane = new_control_plane true (codes "127.0.0.1") (codes "18000") (codes "edge1")

process_insert-dispatched_example :
    (t : Text) × (e' : ControlPlane) × (resource_kind cert.spec ≡ some t)
    × (process_insert decoders (trim_message (message insert_operation)) plane ≡ returns e' none)
    × (lookup (edge_key cert t) (at Edge.secret e'.stores) ≡ some (stored_as cert t))
process_insert-dispatched_example =
    process_insert-dispatched digests decoders cert insert_operation (codes "edge1")
      (message insert_operation) Edge.secret plane inverse no_slash refl (λ row. refl)
      (dispatches insert_operation)

process_delete-dispatched_example :
    (t : Text) × (e' : ControlPlane) × (resource_kind cert.spec ≡ some t)
    × (process_delete decoders (trim_message (message delete_operation)) plane ≡ returns e' none)
    × (lookup (edge_key cert t) (at Edge.secret e'.stores) ≡ none)
    × LacksName (edge_key cert t) (at Edge.secret e'.tables)
process_delete-dispatched_example =
    process_delete-dispatched digests decoders cert delete_operation (codes "edge1")
      (message delete_operation) Edge.secret plane inverse no_slash refl (λ row. refl)
      (dispatches delete_operation)

-- The loop over an insertion and its deletion does not crash.
abbrev after : Option ControlPlane → ControlPlane
after none = plane
after (some e) = e

abbrev two_messages : List Message
two_messages =
    trim_message (message insert_operation) ∷ trim_message (message delete_operation) ∷ []

two_run :
    run_envoy_control_plane decoders two_messages plane
    ≡ some (after (run_envoy_control_plane decoders two_messages plane))
unfolding run_envoy_control_plane ◌==◌ trim_message split parse_resource join decode_content
    Edge.kind_of decode_deleted
two_run = refl

run_envoy_control_plane-IsKeyed_example :
    IsKeyed (after (run_envoy_control_plane decoders two_messages plane)).stores
run_envoy_control_plane-IsKeyed_example =
    run_envoy_control_plane-IsKeyed decoders two_messages true (codes "127.0.0.1") (codes "18000")
      (codes "edge1") (after (run_envoy_control_plane decoders two_messages plane)) two_run
