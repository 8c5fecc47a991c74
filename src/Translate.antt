-- ===== src/Translate.antt =====
-- cloud/pkg/envoyingresscontroller/envoyingresscontroller.go: what an ingress becomes, one child for
-- each kind of Envoy message.
pub mod Secrets
pub mod Endpoints
pub mod Clusters
pub mod Routes
pub mod Listeners
pub mod Contracts
