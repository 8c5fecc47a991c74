-- ===== src/Edge/Delivery.antt =====
-- From `dispatchResource` over CloudHub's `trimMessage` to edge/pkg/envoycontrolplane/process.go: the
-- message as the edge reads it.
use envoyingresscontroller.Prelude.{
  ◌≡◌, ◌≢◌, refl, Option, none, some, [], ◌∷◌, ◌++◌, Text, codes, join, split, split-join, All,
  All-append, Lacks, ◌==◌, arith, Option-cases, inl, inr, ok,
}
use envoyingresscontroller.Constants.{slash}
use envoyingresscontroller.Resource
use envoyingresscontroller.Resource.{Resource, Spec}
use envoyingresscontroller.External.{External}
use envoyingresscontroller.Message.{Message, build_resource, trim_message, get_namespace}
use envoyingresscontroller.Message.RoundTrip.{trim_message-build_resource}
use envoyingresscontroller.Controller.Dispatch.{dispatch_message, resource_kind}
use envoyingresscontroller.Edge.{Kind, secret, endpoint, cluster, route, listener, kind_of}
use envoyingresscontroller.Edge.Process.{
  EdgeExternal, parse_resource, decode_content, namespace_or_default,
}

-- The kind of a message.
abbrev pub spec_kind : Spec → Option Kind
spec_kind (Resource.secret s) = some secret
spec_kind (Resource.endpoint a) = some endpoint
spec_kind (Resource.cluster c) = some cluster
spec_kind (Resource.route r) = some route
spec_kind (Resource.listener l) = some listener
spec_kind Resource.other = none

-- What the decoders of the edge owe the encoders of the cloud: quoting and base64 are undone, a
-- message of a kind that protobuf packed unpacks to itself, and it has a JSON form.
pub record IsInverse (d : External) (x : EdgeExternal) : Type 0 where
  pub quoted : Text → Text
  pub quotes : (b : Text) → x.json_content (d.encode_to_string b) ≡ some (quoted b)
  pub unquotes : (b : Text) → x.unquote (quoted b) ≡ some (d.encode_to_string b)
  pub decodes : (b : Text) → x.decode_string (d.encode_to_string b) ≡ some b
  pub unmarshals :
      (s : Spec) (k : Kind) (b : Text)
      → spec_kind s ≡ some k
      → d.marshal s ≡ some b
      → x.unmarshal k b ≡ some s
  pub json_form : Spec → Text
  pub has_json : (s : Spec) → x.json_message s ≡ some (json_form s)

pub kind_of-resource_kind :
    (s : Spec) (k : Kind)
    → spec_kind s ≡ some k
    → (t : Text) × (resource_kind s ≡ some t) × (kind_of t ≡ some k) × Lacks slash t × (t ≢ [])
unfolding resource_kind kind_of ◌==◌
kind_of-resource_kind (Resource.secret s) k e = (codes "Secret", refl, e, omega arith, λ p. cc)
kind_of-resource_kind (Resource.endpoint s) k e = (codes "Endpoint", refl, e, omega arith, λ p. cc)
kind_of-resource_kind (Resource.cluster s) k e = (codes "Cluster", refl, e, omega arith, λ p. cc)
kind_of-resource_kind (Resource.route s) k e = (codes "Route", refl, e, omega arith, λ p. cc)
kind_of-resource_kind (Resource.listener s) k e = (codes "Listener", refl, e, omega arith, λ p. cc)
kind_of-resource_kind Resource.other k e = cc

abbrev pub envoy_name : Resource → Text
envoy_name r = codes "envoy" ++ r.name

-- The resource of a message when it arrives at the edge.
abbrev pub edge_key : Resource → Text → Text
edge_key r kind = join slash (r.namespace ∷ kind ∷ envoy_name r ∷ [])

-- What is in a message that `dispatchResource` sends.
dispatched :
    (d : External) (r : Resource) (opr node t : Text) (m : Message)
    → resource_kind r.spec ≡ some t
    → dispatch_message d r opr node ≡ ok m
    → (b : Text) × (d.marshal r.spec ≡ some b)
      × (build_resource node r.namespace t (envoy_name r) ≡ ok m.resource)
      × (m.content ≡ d.encode_to_string b)
      × (m.operation ≡ opr)
unfolding dispatch_message
dispatched d r opr node t m e h = elim (Option-cases (d.marshal r.spec)) [
  | inl p ↦ absurd (ground arith)
  | inr (b, p) ↦ (b, p, ground arith, ground arith, ground arith)
]

envoy_name-Lacks : (r : Resource) → Lacks slash r.name → Lacks slash (envoy_name r)
envoy_name-Lacks r l = All-append (λ b. b ≢ slash) (codes "envoy") r.name (omega arith) l

-- The parts of the resource that the edge reads.
edge_parts :
    (r : Resource) (t : Text)
    → All (Lacks slash) (r.namespace ∷ t ∷ r.name ∷ [])
    → split slash (edge_key r t) ≡ r.namespace ∷ t ∷ envoy_name r ∷ []
edge_parts r t l =
    split-join slash r.namespace (t ∷ envoy_name r ∷ [])
      (l.0, (l.1.0, (envoy_name-Lacks r l.1.1.0, tt)))

-- The edge's view of the message: its resource, its kind and the namespace that it reads.
pub arrives :
    (d : External) (x : EdgeExternal) (r : Resource) (opr node t : Text) (m : Message)
    → IsInverse d x
    → All (Lacks slash) (node ∷ r.namespace ∷ r.name ∷ [])
    → Lacks slash t
    → resource_kind r.spec ≡ some t
    → dispatch_message d r opr node ≡ ok m
    → (b : Text) × (d.marshal r.spec ≡ some b)
      × ((trim_message m).resource ≡ edge_key r t)
      × (parse_resource (trim_message m).resource ≡ ok (edge_key r t, t))
      × (namespace_or_default (trim_message m) ≡ envoy_name r)
      × (decode_content x (trim_message m) ≡ ok (d.encode_to_string b, b))
      × ((u : Text) × (x.json_content (trim_message m).content ≡ some u))
unfolding parse_resource namespace_or_default get_namespace decode_content
arrives d x r opr node t m inv l lt e h =
    let (b, p, built, content, _) = dispatched d r opr node t m e h in
    let trimmed =
      trim_message-build_resource m node r.namespace t (envoy_name r) (λ q. cc)
        (l.0, (l.1.0, (lt, (envoy_name-Lacks r l.1.1.0, tt)))) built in
    let parts = edge_parts r t (l.1.0, (lt, (l.1.1.0, tt))) in
    rw trimmed (
      b,
      p,
      refl,
      ground (arith, parts),
      ground (arith, parts),
      ground (arith, content, inv.quotes b, inv.unquotes b, inv.decodes b),
      (inv.quoted b, rw content (inv.quotes b)),
    )
