-- ===== src/Controller.antt =====
-- internal/controller: the resources of an Atom and their reconciliation.
pub mod Groups
pub mod Objects
pub mod Labels
pub mod Middleware
pub mod Ingress
pub mod Resources
pub mod Deployment
pub mod Run
pub mod Cluster
pub mod Ttl
pub mod Ends
pub mod Calm
pub mod Kept
pub mod Steady
pub mod Setup
pub mod Reconcile
