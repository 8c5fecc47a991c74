-- ===== src/Edge/Flush.antt =====
-- edge/pkg/envoycontrolplane/envoycontroplane.go and snapshot.go: `FlushXDSCache` and `Generate`. Go
-- ranges over a map in no fixed order; the model takes the order of its association list.
use envoyingresscontroller.Prelude.{suc, some, List, map, Text, Map, itoa}
use envoyingresscontroller.Resource.{Spec}
use envoyingresscontroller.Edge.{EnvoyResource, PerKind, Snapshot, ControlPlane}

-- The messages of a map, in the slice that one of the five loops fills.
unfoldable pub messages_of : Map EnvoyResource → List Spec
messages_of m = map (λ (entry : Text × EnvoyResource). (entry.1).message) m

-- Generate: a new snapshot for the node.
unfoldable pub generate : Text → PerKind (List Spec) → Text → Snapshot
generate version resources node = record { node = node; version = version; messages = resources }

-- FlushXDSCache
unfoldable pub flush_xds_cache : ControlPlane → ControlPlane
unfolding messages_of generate
flush_xds_cache e = record e {
  version = suc e.version;
  snapshot = some (
      generate (itoa (suc e.version))
        (record {
          secrets = messages_of e.stores.secrets;
          endpoints = messages_of e.stores.endpoints;
          clusters = messages_of e.stores.clusters;
          routes = messages_of e.stores.routes;
          listeners = messages_of e.stores.listeners;
        })
        e.node_name);
}
