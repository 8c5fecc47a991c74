-- ===== src/Envoy.antt =====
-- The Envoy messages of go-control-plane (under vendor/) that the controller builds, with the fields
-- that it sets. `Any` holds the message that `MustMarshalAny` packs: protobuf packs every message
-- whose texts are UTF-8, as those of Kubernetes objects are.
use envoyingresscontroller.Prelude.{ℕ, Bool, Option, List, Text}

pub data ApiVersion : Type 0 where
  v2 v3 : ApiVersion

pub data ApiType : Type 0 where
  rest grpc : ApiType

pub record ConfigSource : Type 0 where
  pub resource_api_version : ApiVersion
  pub api_type : ApiType
  pub transport_api_version : ApiVersion
  pub cluster_name : Text

pub record SocketAddress : Type 0 where
  pub address : Text
  pub ipv4_compat : Bool
  pub port_value : ℕ

pub record LbEndpoint : Type 0 where
  pub address : SocketAddress

pub record LocalityLbEndpoints : Type 0 where
  pub lb_endpoints : List LbEndpoint
  pub load_balancing_weight : Option ℕ

pub record ClusterLoadAssignment : Type 0 where
  pub cluster_name : Text
  pub endpoints : List LocalityLbEndpoints

pub record SdsSecretConfig : Type 0 where
  pub name : Text
  pub sds_config : ConfigSource

pub record ValidationContext : Type 0 where
  pub trusted_ca : Text
  pub match_subject_alt_names : List Text

pub record UpstreamTlsContext : Type 0 where
  pub alpn_protocols : List Text
  pub sds_secret_configs : List SdsSecretConfig
  pub sni : Text
  pub validation_context : Option ValidationContext

pub data TlsProtocol : Type 0 where
  tls_v1_0 tls_v1_1 tls_v1_2 tls_v1_3 : TlsProtocol

pub record DownstreamTlsContext : Type 0 where
  pub min_version : TlsProtocol
  pub max_version : TlsProtocol
  pub sds_secret_configs : List SdsSecretConfig
  pub alpn_protocols : List Text
  pub validation_context : Option ValidationContext
  pub require_client_certificate : Bool

pub data HttpVersion : Type 0 where
  version_auto version_1 version_2 version_3 : HttpVersion

pub record HttpFilter : Type 0 where
  pub name : Text
  pub type_url : Text

pub record HttpConnectionManager : Type 0 where
  pub stat_prefix : Text
  pub codec_type : HttpVersion
  pub route_config_name : Text
  pub config_source : ConfigSource
  pub http_filters : List HttpFilter

pub data Any : Type 0 where
  upstream_tls : UpstreamTlsContext → Any
  downstream_tls : DownstreamTlsContext → Any
  connection_manager : HttpConnectionManager → Any
  http2_options : Any

pub record TransportSocket : Type 0 where
  pub name : Text
  pub typed_config : Any

pub data LbPolicy : Type 0 where
  round_robin least_request ring_hash random : LbPolicy

pub data DiscoveryType : Type 0 where
  eds strict_dns : DiscoveryType

pub data DnsLookupFamily : Type 0 where
  auto v4_only v6_only : DnsLookupFamily

pub record EdsClusterConfig : Type 0 where
  pub eds_config : ConfigSource
  pub service_name : Text

pub record Cluster : Type 0 where
  pub name : Text
  pub alt_stat_name : Text
  pub connect_timeout_nanos : ℕ
  pub healthy_panic_threshold : ℕ
  pub lb_policy : LbPolicy
  pub dns_lookup_family : DnsLookupFamily
  pub discovery_type : DiscoveryType
  pub eds_cluster_config : Option EdsClusterConfig
  pub load_assignment : Option ClusterLoadAssignment
  pub protocol_options : List (Text × Any)
  pub transport_socket : Option TransportSocket

pub data PathSpecifier : Type 0 where
  path prefix safe_regex : Text → PathSpecifier

pub record Route : Type 0 where
  pub match : Option PathSpecifier
  pub cluster : Option Text

pub record VirtualHost : Type 0 where
  pub name : Text
  pub domains : List Text
  pub routes : List Route

pub record HeaderValueOption : Type 0 where
  pub key : Text
  pub value : Text
  pub appends : Bool

pub record RouteConfiguration : Type 0 where
  pub name : Text
  pub virtual_hosts : List VirtualHost
  pub request_headers_to_add : List HeaderValueOption

pub record Filter : Type 0 where
  pub name : Text
  pub typed_config : Any

pub record FilterChain : Type 0 where
  pub filters : List Filter
  pub server_names : List Text
  pub transport_socket : Option TransportSocket

pub data SocketState : Type 0 where
  state_prebind state_bound state_listening : SocketState

pub record SocketOption : Type 0 where
  pub description : Text
  pub level : ℕ
  pub name : ℕ
  pub int_value : ℕ
  pub state : SocketState

pub record Listener : Type 0 where
  pub name : Text
  pub address : SocketAddress
  pub filter_chains : List FilterChain
  pub socket_options : List SocketOption

-- The TLS certificate of SDS: the private key and the chain are inline bytes.
pub record TlsSecret : Type 0 where
  pub name : Text
  pub private_key : Text
  pub certificate_chain : Text
