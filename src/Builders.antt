-- ===== src/Builders.antt =====
-- cloud/pkg/envoyingresscontroller/contour.go: the functions that build parts of Envoy messages.
use envoyingresscontroller.Prelude.{
  ℕ, ◌%◌, ◌^◌, Bool, true, false, ◌||◌, Option, none, some, List, [], ◌∷◌, ◌++◌, map, Text, codes,
  get_text, if◌then◌else◌, ◌==◌, is_nil, any,
}
use envoyingresscontroller.Constants.{tls_cert_key, tls_private_key_key}
use envoyingresscontroller.External.{External}
use envoyingresscontroller.Kube
use envoyingresscontroller.Kube.{Service, ServicePort}
use envoyingresscontroller.Names.{
  secret_name, cluster_load_assignment_name, PeerValidationContext, get_ca_certificate,
  get_subject_name,
}
use envoyingresscontroller.Envoy.{
  v3, grpc, ConfigSource, SocketAddress, LbEndpoint, LocalityLbEndpoints, ClusterLoadAssignment,
  SdsSecretConfig, ValidationContext, UpstreamTlsContext, TlsProtocol, tls_v1_3,
  DownstreamTlsContext, HttpVersion, version_auto, version_1, version_2, version_3, Any,
  upstream_tls, downstream_tls, http2_options, TransportSocket, LbPolicy, round_robin,
  least_request, ring_hash, random, EdsClusterConfig, Cluster, eds, auto, VirtualHost,
  HeaderValueOption, RouteConfiguration, Filter, FilterChain, SocketOption, state_listening,
  Listener, TlsSecret,
}

-- The cluster that serves the xDS API, by the name that every ConfigSource gives it.
abbrev pub management_cluster : Text
management_cluster = codes "envoyingresscontroller"

-- Secret
unfoldable pub secret : External → Kube.Secret → TlsSecret
secret d s = record {
  name = secret_name d s;
  private_key = get_text tls_private_key_key s.content;
  certificate_chain = get_text tls_cert_key s.content;
}

-- LBEndpoint
unfoldable pub lb_endpoint : SocketAddress → LbEndpoint
lb_endpoint addr = record { address = addr }

-- SocketAddress: uint32(port)
unfoldable pub socket_address : Text → ℕ → SocketAddress
socket_address address port =
    if address == codes "::"
    then record { address = address; ipv4_compat = true; port_value = port % 2 ^ 32 }
    else record { address = address; ipv4_compat = false; port_value = port % 2 ^ 32 }

-- ConfigSource
unfoldable pub config_source : Text → ConfigSource
config_source cluster = record {
  resource_api_version = v3;
  api_type = grpc;
  transport_api_version = v3;
  cluster_name = cluster;
}

-- validationContext
unfoldable pub validation_context : Text → Text → ValidationContext
validation_context ca subject_name = record {
  trusted_ca = ca;
  match_subject_alt_names = if is_nil subject_name then [] else subject_name ∷ [];
}

unfoldable pub sds_secret_config : External → Kube.Secret → SdsSecretConfig
sds_secret_config d s = record {
  name = secret_name d s;
  sds_config = config_source management_cluster;
}

unfoldable pub upstream_validation : Option Text → Text → Option ValidationContext
upstream_validation none subject_name = none
upstream_validation (some ca) subject_name =
    if is_nil subject_name then none else some (validation_context ca subject_name)

-- UpstreamTLSContext
unfoldable pub upstream_tls_context :
    External
    → Option PeerValidationContext
    → Text
    → Option Kube.Secret
    → List Text
    → UpstreamTlsContext
unfolding upstream_validation
upstream_tls_context d peer sni client_secret alpn_protocols = record {
  alpn_protocols = alpn_protocols;
  sds_secret_configs = elim client_secret [ none ↦ [] | some s ↦ sds_secret_config d s ∷ [] ];
  sni = sni;
  validation_context = upstream_validation (get_ca_certificate peer) (get_subject_name peer);
}

-- UpstreamTLSTransportSocket
unfoldable pub upstream_tls_transport_socket : UpstreamTlsContext → TransportSocket
upstream_tls_transport_socket tls = record {
  name = codes "envoy.transport_sockets.tls";
  typed_config = upstream_tls tls;
}

-- http2ProtocolOptions
unfoldable pub http2_protocol_options : List (Text × Any)
http2_protocol_options =
    (codes "envoy.extensions.upstreams.http.v3.HttpProtocolOptions", http2_options) ∷ []

-- Endpoints
unfoldable pub endpoints : List SocketAddress → List LocalityLbEndpoints
endpoints addrs = record { lb_endpoints = map lb_endpoint addrs; load_balancing_weight = none } ∷ []

-- StaticClusterLoadAssignment
unfoldable pub static_cluster_load_assignment : Service → ServicePort → ClusterLoadAssignment
static_cluster_load_assignment service service_port = record {
  cluster_name = cluster_load_assignment_name service.namespace service.name service_port.name;
  endpoints = endpoints (socket_address service.external_name service_port.port ∷ []);
}

-- edsconfig
unfoldable pub edsconfig : Text → Service → ServicePort → EdsClusterConfig
edsconfig cluster service service_port = record {
  eds_config = config_source cluster;
  service_name = cluster_load_assignment_name service.namespace service.name service_port.name;
}

-- lbPolicy
unfoldable pub lb_policy : Text → LbPolicy
lb_policy strategy =
    if strategy == codes "WeightedLeastRequest"
    then least_request
    else if strategy == codes "Random"
    then random
    else if strategy == codes "Cookie" || strategy == codes "RequestHash"
    then ring_hash
    else round_robin

-- clusterDefaults, with ClusterCommonLBConfig. The fields that it leaves unset are protobuf's zeros.
unfoldable pub cluster_defaults : Cluster
cluster_defaults = record {
  name = [];
  alt_stat_name = [];
  connect_timeout_nanos = 250000;
  healthy_panic_threshold = 0;
  lb_policy = lb_policy (codes "RoundRobin");
  dns_lookup_family = auto;
  discovery_type = eds;
  eds_cluster_config = none;
  load_assignment = none;
  protocol_options = [];
  transport_socket = none;
}

-- AppendHeader
unfoldable pub append_header : Text → Text → HeaderValueOption
append_header key value = record { key = key; value = value; appends = true }

-- Headers
unfoldable pub headers : HeaderValueOption → List HeaderValueOption → List HeaderValueOption
headers first rest = (first ∷ []) ++ rest

-- RouteConfiguration
unfoldable pub route_configuration : Text → List VirtualHost → RouteConfiguration
route_configuration name virtual_hosts = record {
  name = name;
  virtual_hosts = virtual_hosts;
  request_headers_to_add =
      headers (append_header (codes "x-request-start") (codes "t=%START_TIME(%s.%3f)%")) [];
}

socket_option : Text → ℕ → ℕ → ℕ → SocketOption
socket_option description level name value = record {
  description = description;
  level = level;
  name = name;
  int_value = value;
  state = state_listening;
}

-- TCPKeepaliveSocketOptions, with the Linux constants of envoyingresscontroller.go.
unfoldable pub tcp_keepalive_socket_options : List SocketOption
unfolding socket_option
tcp_keepalive_socket_options =
    socket_option (codes "Enable TCP keep-alive") 0x1 0x9 1
    ∷ socket_option (codes "TCP keep-alive initial idle time") 0x6 0x4 45
    ∷ socket_option (codes "TCP keep-alive time between probes") 0x6 0x5 5
    ∷ socket_option (codes "TCP keep-alive probe count") 0x6 0x6 9
    ∷ []

-- Listener
unfoldable pub listener : Text → Text → ℕ → List Filter → Listener
listener name address port filters = record {
  name = name;
  address = socket_address address port;
  filter_chains =
      if is_nil filters
      then []
      else record { filters = filters; server_names = []; transport_socket = none } ∷ [];
  socket_options = tcp_keepalive_socket_options;
}

-- DownstreamTLSTransportSocket
unfoldable pub downstream_tls_transport_socket : DownstreamTlsContext → TransportSocket
downstream_tls_transport_socket tls = record {
  name = codes "envoy.transport_sockets.tls";
  typed_config = downstream_tls tls;
}

-- FilterChainTLS
unfoldable pub filter_chain_tls : Text → Option DownstreamTlsContext → List Filter → FilterChain
filter_chain_tls domain downstream filters = record {
  filters = filters;
  server_names = domain ∷ [];
  transport_socket = elim downstream [
    | none ↦ none
    | some tls ↦ some (downstream_tls_transport_socket tls)
  ];
}

-- DownstreamTLSContext
unfoldable pub downstream_tls_context :
    External
    → Kube.Secret
    → TlsProtocol
    → Option PeerValidationContext
    → List Text
    → DownstreamTlsContext
downstream_tls_context d server_secret min_version peer alpn_protos = record {
  min_version = min_version;
  max_version = tls_v1_3;
  sds_secret_configs = sds_secret_config d server_secret ∷ [];
  alpn_protocols = alpn_protos;
  validation_context = elim (get_ca_certificate peer) [
    | none ↦ none
    | some ca ↦ some (validation_context ca [])
  ];
  require_client_certificate = elim (get_ca_certificate peer) [ none ↦ false | some _ ↦ true ];
}

abbrev default_versions : List Text
default_versions = codes "h2" ∷ codes "http/1.1" ∷ []

unfoldable pub same_version : HttpVersion → HttpVersion → Bool
same_version version_auto version_auto = true
same_version version_1 version_1 = true
same_version version_2 version_2 = true
same_version version_3 version_3 = true
same_version _ _ = false

-- ProtoNamesForVersions: a variadic call with no argument has a nil slice. The versions are checked
-- in order of preference, and `auto` stands for all.
unfoldable pub proto_names_for_versions : List HttpVersion → List Text
unfolding same_version
proto_names_for_versions [] = default_versions
proto_names_for_versions (v ∷ vs) =
    if any (same_version version_auto) (v ∷ vs)
    then default_versions
    else (if any (same_version version_2) (v ∷ vs) then codes "h2" ∷ [] else [])
      ++ (if any (same_version version_1) (v ∷ vs) then codes "http/1.1" ∷ [] else [])
