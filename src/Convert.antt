-- ===== src/Convert.antt =====
-- cloud/pkg/envoyingresscontroller/envoyingresscontroller.go: `toV1Ingress` and
-- `serviceBackendPort`, which turn a networking/v1beta1 ingress into a networking/v1 one. The
-- conversion is total: a nil argument, which `toV1Ingress` also takes, no caller passes.
use envoyingresscontroller.Prelude.{Option, none, some, [], map}
use envoyingresscontroller.Kube.{
  PathType, exact, prefix, implementation_specific, unknown, ServiceBackendPort, IngressBackend,
  HttpIngressPath, IngressRule, IngressTls, Ingress, IntOrString, int_val, str_val, V1beta1Backend,
  V1beta1Path, V1beta1Rule, V1beta1Ingress,
}

-- serviceBackendPort
unfoldable pub service_backend_port : IntOrString → ServiceBackendPort
service_backend_port (str_val s) = record { name = s; number = 0 }
service_backend_port (int_val n) = record { name = []; number = n }

-- The switch on the path type; one that it does not know becomes implementation specific.
unfoldable pub convert_path_type : Option PathType → PathType
convert_path_type none = implementation_specific
convert_path_type (some prefix) = prefix
convert_path_type (some exact) = exact
convert_path_type (some implementation_specific) = implementation_specific
convert_path_type (some (unknown t)) = implementation_specific

unfoldable pub convert_backend : V1beta1Backend → IngressBackend
convert_backend b = record {
  service = some (record { name = b.service_name; port = service_backend_port b.service_port });
}

unfoldable pub convert_path : V1beta1Path → HttpIngressPath
unfolding convert_path_type
convert_path p = record {
  path = p.path;
  path_type = some (convert_path_type p.path_type);
  backend = convert_backend p.backend;
}

-- A rule without HTTP keeps a nil `HTTP`.
unfoldable pub convert_rule : V1beta1Rule → IngressRule
convert_rule r = record {
  host = r.host;
  http = elim r.http [ none ↦ none | some paths ↦ some (map convert_path paths) ];
}

-- The TLS entries are copied field by field.
unfoldable pub convert_tls : IngressTls → IngressTls
convert_tls t = record { hosts = t.hosts; secret_name = t.secret_name }

-- toV1Ingress
unfoldable pub to_v1_ingress : V1beta1Ingress → Ingress
to_v1_ingress obj = record {
  meta = obj.meta;
  ingress_class_name = obj.ingress_class_name;
  default_backend = elim obj.backend [ none ↦ none | some b ↦ some (convert_backend b) ];
  tls = map convert_tls obj.tls;
  rules = map convert_rule obj.rules;
}
