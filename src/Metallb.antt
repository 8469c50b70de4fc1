-- ===== src/Metallb.antt =====
-- The package cherry/loadbalancers/metallb.
pub mod Resource
pub mod Services
pub mod Config
pub mod Peers
pub mod Api
pub mod Crd
pub mod Lb
pub mod ConfigMap
