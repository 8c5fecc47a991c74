-- ===== src/Constants.antt =====
-- The string constants of envoyingresscontroller.go, resource.go and constants/node.go (under
-- cloud/pkg/envoyingresscontroller), and those of cloud/pkg/edgecontroller/constants that are used.
use envoyingresscontroller.Prelude.{ℕ, Text, codes}

abbrev pub envoy_http_listener : Text
envoy_http_listener = codes "ingress_http"

abbrev pub envoy_https_listener : Text
envoy_https_listener = codes "ingress_https"

abbrev pub default_http_listener_address : Text
default_http_listener_address = codes "0.0.0.0"

abbrev pub envoy_ingress_controller_name : Text
envoy_ingress_controller_name = codes "envoyingress"

abbrev pub envoy_ingress_nodegroup_annotation : Text
envoy_ingress_nodegroup_annotation = codes "v1alpha1.kubeedge.io/nodegroup"

abbrev pub service_http_protocol_annotation : Text
service_http_protocol_annotation = codes "v1alpha1.kubeedge.io/httpprotocol"

abbrev pub service_health_check_path_annotation : Text
service_health_check_path_annotation = codes "v1alpha1.kubeedge.io/healthcheck"

abbrev pub ingress_class_annotation : Text
ingress_class_annotation = codes "kubernetes.io/ingress.class"

abbrev pub node_group_label : Text
node_group_label = codes "nodegroup"

abbrev pub group_resource : Text
group_resource = codes "envoy"

abbrev pub ca_certificate_key : Text
ca_certificate_key = codes "ca.crt"

abbrev pub tls_cert_key : Text
tls_cert_key = codes "tls.crt"

abbrev pub tls_private_key_key : Text
tls_private_key_key = codes "tls.key"

abbrev pub ready_condition : Text
ready_condition = codes "Ready"

abbrev pub condition_true : Text
condition_true = codes "True"

-- The separators of `strings.Split` and `strings.Join`.
abbrev pub slash : ℕ
slash = b'/'

abbrev pub semicolon : ℕ
semicolon = b';'

abbrev pub underscore : ℕ
underscore = b'_'

abbrev pub dash : ℕ
dash = b'-'
