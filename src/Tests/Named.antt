-- ===== src/Tests/Named.antt =====
-- The names and the messages, on concrete parts.
use envoyingresscontroller.Prelude.{
  ◌≡◌, refl, [], ◌∷◌, codes, All, Lacks, arith, ok, join, length, ◌≤◌,
}
use envoyingresscontroller.Constants.{slash}
use envoyingresscontroller.Names.{hashname}
use envoyingresscontroller.Names.Bounds.{length-hashname}
use envoyingresscontroller.Message.{
  Message, build_resource, get_node_id, get_namespace, get_resource_type, get_resource_name, send,
  trim_message, insert_operation,
}
use envoyingresscontroller.Message.RoundTrip.{build_resource-getters, trim_message-build_resource}
use envoyingresscontroller.Tests.{digests, layer}

length-hashname_example : length (hashname digests 60 (codes "shop" ∷ codes "ns" ∷ [])) ≤ 60
length-hashname_example = length-hashname digests 60 (codes "shop" ∷ codes "ns" ∷ [])

abbrev sent_message : Message
sent_message = record {
  resource_version = codes "1";
  source = codes "envoyingresscontroller";
  group = codes "resource";
  resource = codes "node/edge1/ns/Secret/envoycert";
  operation = insert_operation;
  content = [];
}

built :
    build_resource (codes "edge1") (codes "ns") (codes "Secret") (codes "envoycert")
    ≡ ok sent_message.resource
unfolding build_resource
built = refl

no_slash : All (Lacks slash) (codes "edge1" ∷ codes "ns" ∷ codes "Secret" ∷ codes "envoycert" ∷ [])
no_slash = (omega arith, (omega arith, (omega arith, (omega arith, tt))))

build_resource-getters_example :
    (get_node_id sent_message ≡ ok (codes "edge1"))
    × (get_namespace sent_message ≡ ok (codes "ns"))
    × (get_resource_type sent_message ≡ ok (codes "Secret"))
    × (get_resource_name sent_message ≡ ok (codes "envoycert"))
    × (send layer sent_message ≡ (codes "cloudhub", sent_message))
build_resource-getters_example =
    build_resource-getters layer sent_message (codes "edge1") (codes "ns") (codes "Secret")
      (codes "envoycert") (λ p. cc) no_slash built

trim_message-build_resource_example : trim_message sent_message ≡ record sent_message {
  resource = join slash (codes "ns" ∷ codes "Secret" ∷ codes "envoycert" ∷ []);
}
trim_message-build_resource_example =
    trim_message-build_resource sent_message (codes "edge1") (codes "ns") (codes "Secret")
      (codes "envoycert") (λ p. cc) no_slash built
