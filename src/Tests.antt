-- ===== src/Tests.antt =====
-- Concrete inputs for the theorems of the development, and runs of its definitions.
mod Cluster
mod Services
mod Peers
mod Frr
mod LoadBalancer
mod Nodes
mod Events
mod Servers
mod Controller
mod Bgp
mod Removal
mod Choice
mod ConfigFile
mod Endpoints
mod ConfigMap
mod Startup
mod Selectors
