-- ===== src/Lib.antt =====
-- Verification of the Envoy ingress controller of a KubeEdge cloud, of CloudHub that carries its messages,
-- and of two modules on the edge: the control plane that receives them and the twins of the devices.
--
-- The controller (cloud/pkg/envoyingresscontroller) watches ingresses, services, endpoints, secrets and
-- nodes. Events put keys of ingresses into a queue; a worker takes a key to `syncEnvoyIngress`, which
-- translates the ingress into Envoy messages, stores them as named resources with references to the
-- ingresses that ask for them, and queues the resources' names. Another worker takes such a name to
-- `syncEnvoyResource`, which sends the resource to every ready node of its groups, for insertion while
-- an ingress refers to it and for deletion otherwise. CloudHub puts a message into a queue and a store of
-- its node; two write loops take the keys out, one for lists and Envoy messages, which sends once, and
-- one for objects, which sends until an acknowledgement comes and records what the edge has. The edge
-- hands Envoy messages to edge/pkg/envoycontrolplane, which keeps a map and a table for each of five
-- kinds of messages and serves snapshots of the maps, and messages on devices to edge/pkg/devicetwin,
-- which keeps the expected and the actual values of each device with a version for either side.
--
-- Files and code:
-- - Kube, Envoy: the parts of the Kubernetes and Envoy types that the code reads and writes; Constants.
-- - External, and Listers in Kube: what the code calls outside the repository, as parameters: digests,
--   object keys, protobuf, base64 and the listers of client-go. EdgeExternal in Edge/Process does the
--   same for the decoders and the database of the edge.
-- - Location: cloud/pkg/envoyingresscontroller/cache/location.go, `LocationCache` and its methods.
-- - Names, Builders: contour.go, `Hashname`, `Clustername` and the builders of messages.
-- - Convert: `toV1Ingress`. Matching: `getIngressesForService`, `getServicesForIngress`,
--   `getIngressesForSecret`, `getNodeGroupForIngress`.
-- - Translate: `getSecretsForIngress`, `getEndpointsForIngress`, `getClustersForIngress`,
--   `getRouteForIngress` and `getListenersForIngress`, a child for each; Translate/Contracts is about
--   the names by which their results refer to one another.
-- - Resource: resource.go and `EnvoyResourceKeyFunc`.
-- - Message: messagelayer/util.go and context.go, and `trimMessage` of
--   cloud/pkg/cloudhub/handler/messagehandler.go.
-- - Controller: `EnvoyIngressController` as a record; an action takes the record and returns, fails with
--   an error, waits for the lock of the store, or panics. Controller/Dispatch: `syncEnvoyResource`,
--   `dispatchResource`; Controller/Sync: `syncEnvoyIngress`; Controller/Events: the handlers of events;
--   Controller/Initiate: `initCache`, `initiateEnvoyResources` and the start of `Run`;
--   Controller/Handlers: which handler each event has. The other children hold proofs: Invariant,
--   Steps, Inserts, Loops, Safety, Sending, Startup, Quiet and Reach on the stored resources and the
--   lock, Stored, Leak, Waiting, Recipients and Enqueued on single calls.
-- - Edge: edge/pkg/envoycontrolplane; Edge/Process: process.go and dao/sql.go, Edge/Flush:
--   `FlushXDSCache`; Edge/Stores, Edge/Delivery, Edge/Arrival and Edge/Keyed hold proofs.
-- - CloudHub: cloud/pkg/cloudhub/common/model/types.go and what CloudHub uses of cloud/pkg/synccontroller;
--   CloudHub/Queues: channelq/channelq.go; CloudHub/Sends: `sendMsg`, the success points and the write
--   loops of handler/messagehandler.go; CloudHub/Nodes: `HandleServer`, `OnRegister` and the registration
--   of nodes. Fresh, Retry, Acks, SyncNames, Envoy and Registry hold proofs.
-- - DeviceTwin: dttype, dtcommon and the rows of dtclient of edge/pkg/devicetwin; DeviceTwin/Twins,
--   Compare, Adds and Requests: dtmanager/twin.go; DeviceTwin/Attributes: dtmanager/device.go;
--   DeviceTwin/Devices: dtmanager/membership.go. Monotone with its children, Rejected, Answered,
--   Unnoticed, Deltas, Listed, AttributeChanges, AttributeKeys and Detail hold proofs.
-- - Tests: sample objects, and the theorems applied to them.
--
-- Conventions: a Go string is a list of bytes, a map is an association list whose lookup and update
-- are by key, a set is a list without order, and ranging over either takes the order of the list. A nil
-- pointer that the code reads without a test gives `panics`. Loops are structural recursion over the
-- slices that they range over, so that no fuel is needed; only `strconv.Itoa` counts down a number that
-- bounds its digits. The select of `sendMsg` recurs on the list of the events that come, and waits when
-- there are no more. A work queue of CloudHub is the list of the calls on it; a queue of the controller
-- is the list of the keys that were added to it, and a worker of the resource queue takes a key out. The versions of twins are int64, each
-- kept as its distance from the least one, with the wrap-around of 64 bits. The API server, the database,
-- the connections and the tests of texts by strconv and regexp (`is_float`, the volume pattern) are
-- parameters, as functions that give their answers.
--
-- Not modelled: the work queues of client-go beyond the calls on them, the informers, the interleaving of
-- two workers inside one call, the locks other than that of the resource store, logging, JSON forms, the
-- servers and certificates of CloudHub, the goroutines of `ServeConn`, the reconciliation of the sync
-- controller, the workers' channels and communicate.go of the device twins, the gRPC server on the edge,
-- and functions that nothing calls. The rest of the repository, which is KubeEdge, is outside this library.
pub mod Prelude
pub mod Kube
pub mod Constants
pub mod External
pub mod Names
pub mod Location
pub mod Envoy
pub mod Builders
pub mod Convert
pub mod Matching
pub mod Resource
pub mod Translate
pub mod Message
pub mod Controller
pub mod Edge
pub mod CloudHub
pub mod DeviceTwin
pub mod Tests
