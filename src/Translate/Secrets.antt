-- ===== src/Translate/Secrets.antt =====
-- envoyingresscontroller.go: `getSecretsForIngress`.
use envoyingresscontroller.Prelude.{none, some, List, [], ◌∷◌, TextSet, Outcome, ok, ◌>>=◌}
use envoyingresscontroller.External.{External}
use envoyingresscontroller.Kube
use envoyingresscontroller.Kube.{Listers, Ingress, IngressTls, found?}
use envoyingresscontroller.Names.{secret_name}
use envoyingresscontroller.Builders
use envoyingresscontroller.Resource
use envoyingresscontroller.Resource.{Resource}
use envoyingresscontroller.Matching.{get_node_group_for_ingress}

unfoldable pub secret_resource : External → Ingress → TextSet → Kube.Secret → Resource
secret_resource d ingress nodegroup s = record {
  name = secret_name d s;
  namespace = ingress.namespace;
  resource_version = s.resource_version;
  node_group = nodegroup;
  ingress_ref = d.key_func ingress ∷ [];
  spec = Resource.secret (Builders.secret d s);
}

-- A secret that the lister does not give is passed over.
unfoldable pub secret_loop :
    Listers → External → Ingress → TextSet → List IngressTls → List Resource
secret_loop ls d ingress nodegroup [] = []
secret_loop ls d ingress nodegroup (t ∷ ts) =
    let rest = secret_loop ls d ingress nodegroup ts in
    elim (found? (ls.get_secret ingress.namespace t.secret_name)) [
      | none ↦ rest
      | some s ↦ secret_resource d ingress nodegroup s ∷ rest
    ]

-- getSecretsForIngress
unfoldable pub get_secrets_for_ingress : Listers → External → Ingress → Outcome (List Resource)
get_secrets_for_ingress ls d ingress = do
  nodegroup ← get_node_group_for_ingress ingress
  ok (secret_loop ls d ingress nodegroup ingress.tls)
