-- ===== src/LoadBalancers.antt =====
-- cherry/loadbalancers/: what a load balancer is told of a node (node.go), and the interface of the
-- load balancers (interface.go), which MetalLB, kube-vip and the empty one fill.
pub mod KubeVip
pub mod Empty
pub mod ReadBack
use cloud_provider_cherry.Prelude.{ℕ, String, Option, List, Labels}
use cloud_provider_cherry.Effect.{Result, Action}

pub record Peer : Type 0 where
  pub address : String
  pub port : ℕ

pub record Node : Type 0 where
  pub name : String
  pub source_ip : String
  pub local_asn : ℕ
  pub peer_asn : ℕ
  pub password : String
  pub peers : List Peer
  pub region : String

-- The fields of v1.Service that are read and written; nil annotations read as the empty map.
pub record Service : Type 0 where
  pub namespace : String
  pub name : String
  pub annotations : Labels
  pub load_balancer_ip : String

-- LB: the services are given by namespace and name, and an address beside a service is that of its
-- reservation.
pub record Lb (W : Type 0) : Type 0 where
  pub service_ip : Option Service → Option String
  pub set_service_ip : Option Service → String → Result Service
  pub add_service : String → String → String → List Node → Action W Unit
  pub remove_service : String → String → String → Action W Unit
  pub update_service : String → String → List Node → Action W Unit
