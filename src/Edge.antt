-- ===== src/Edge.antt =====
-- edge/pkg/envoycontrolplane: the process on an edge node that keeps the Envoy resources which the
-- cloud sends, in memory and in the database, and serves them. process.go, resource.go,
-- envoycontroplane.go, snapshot.go and dao/.
pub mod Process
pub mod Flush
pub mod Stores
pub mod Delivery
pub mod Arrival
pub mod Keyed
use envoyingresscontroller.Prelude.{
  ℕ, Bool, true, false, ◌&&◌, Option, none, some, List, [], ◌∷◌, ◌++◌, Text, Map, codes, lookup,
  put, remove, if◌then◌else◌, ◌==◌, get_elem?, split,
}
use envoyingresscontroller.Resource.{
  Resource, Spec, secret_kind, endpoint_kind, cluster_kind, route_kind, listener_kind,
}

-- The five kinds of resource, one map and one table for each.
pub data Kind : Type 0 where
  secret endpoint cluster route listener : Kind

-- EnvoySecret, EnvoyEndpoint, EnvoyCluster, EnvoyRoute and EnvoyListener: the five records differ in
-- the type of the message alone. The fields that process.go does not set are left out.
pub record EnvoyResource : Type 0 where
  pub name : Text
  pub namespace : Text
  pub message : Spec

-- The rows of a table of dao/: ID, Name, Value and JsonValue.
pub record Row : Type 0 where
  pub id : Text
  pub name : Text
  pub value : Text
  pub json_value : Text

-- A member for each kind.
pub record PerKind {ℓ} (A : Type ℓ) : Type ℓ where
  pub secrets : A
  pub endpoints : A
  pub clusters : A
  pub routes : A
  pub listeners : A

module _ {ℓ} {A : Type ℓ} where
  abbrev pub at : Kind → PerKind A → A
  at secret p = p.secrets
  at endpoint p = p.endpoints
  at cluster p = p.clusters
  at route p = p.routes
  at listener p = p.listeners

  abbrev pub set_at : Kind → A → PerKind A → PerKind A
  set_at secret a p = record p { secrets = a }
  set_at endpoint a p = record p { endpoints = a }
  set_at cluster a p = record p { clusters = a }
  set_at route a p = record p { routes = a }
  set_at listener a p = record p { listeners = a }

  abbrev pub everywhere : A → PerKind A
  everywhere a = record { secrets = a; endpoints = a; clusters = a; routes = a; listeners = a }

-- What Generate hands to the snapshot cache: the version and the messages of each kind.
pub record Snapshot : Type 0 where
  pub node : Text
  pub version : Text
  pub messages : PerKind (List Spec)

-- envoyControlPlane, with the database and the snapshot that the xDS server serves.
pub record ControlPlane : Type 0 where
  pub enable : Bool
  pub stores : PerKind (Map EnvoyResource)
  pub tables : PerKind (List Row)
  pub snapshot : Option Snapshot
  pub xds_addr : Text
  pub xds_port : Text
  pub node_name : Text
  pub version : ℕ

-- newControlPlane, on an empty database.
unfoldable pub new_control_plane : Bool → Text → Text → Text → ControlPlane
new_control_plane enable xds_addr xds_port node_name = record {
  enable = enable;
  stores = everywhere [];
  tables = everywhere [];
  snapshot = none;
  xds_addr = xds_addr;
  xds_port = xds_port;
  node_name = node_name;
  version = 0;
}

-- The switch on the resource type, on the constants of resource.go.
unfoldable pub kind_of : Text → Option Kind
kind_of t =
    if t == secret_kind
    then some secret
    else if t == endpoint_kind
    then some endpoint
    else if t == cluster_kind
    then some cluster
    else if t == route_kind
    then some route
    else if t == listener_kind
    then some listener
    else none
