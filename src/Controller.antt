-- ===== src/Controller.antt =====
-- cherry/loadbalancers.go: the controller of services of type LoadBalancer. It keeps an address
-- reservation for each service, writes the BGP peers of a node to the node's annotations, and tells
-- the rest to the implementor. Controller/Nodes is what it does to nodes, Controller/Services the
-- operations on services.
pub mod Nodes
pub mod Services
pub mod Tags
pub mod Choice
use cloud_provider_cherry.Prelude.{
  String, ◌<>◌, Bool, true, not, ◌!=◌, Option, none, some, List, [], ◌∷◌, Labels, index, filter,
  string_eq,
}
use cloud_provider_cherry.Effect.{Action}
use cloud_provider_cherry.Reservations.{IpAddress, ip_reservation_by_all_tags}
use cloud_provider_cherry.Bgp.{NodeBgpInfo}
use cloud_provider_cherry.LoadBalancers.{Service, Lb}

-- constants.go
abbrev pub cherry_identifier : String
cherry_identifier = "cloud-provider-cherry-auto"

abbrev pub cherry_tag : String
cherry_tag = "usage"

abbrev pub cherry_value : String
cherry_value = cherry_identifier

abbrev pub annotation_load_balancer_managed : String
annotation_load_balancer_managed = "cherryservers.com/loadbalancer-managed"

-- The fields of v1.Node that are read; annotations may be nil.
pub record KubeNode : Type 0 where
  pub name : String
  pub provider_id : String
  pub labels : Labels
  pub annotations : Option Labels

-- The templates of the annotations of a node, `annotationLocalASN` and so on.
pub record Templates : Type 0 where
  pub local_asn : String
  pub peer_asn : String
  pub peer_ip : String
  pub src_ip : String
  pub multi_hop : String

-- IPAddresses.List, Create (of a region and tags) and Remove of the provider's API; Get and Update
-- of a service and Patch of a node's annotations of the Kubernetes API, where Get may answer with
-- nil; and an assignment to the annotations of a node object that others share.
pub record Calls (W : Type 0) : Type 0 where
  pub list_ips : Action W (List IpAddress)
  pub create_ip : String → Labels → Action W IpAddress
  pub remove_ip : String → Action W Unit
  pub get_service : String → String → Action W (Option Service)
  pub update_service : Service → Action W Unit
  pub patch_node : String → Labels → Action W Unit
  pub write_annotations : KubeNode → Labels → Action W Unit

-- loadBalancers. The selector of nodes is the test `selects` on labels, and `service_hash` is SHA-256
-- with base64.
pub record LoadBalancers (W : Type 0) : Type 0 where
  pub calls : Calls W
  pub region : String
  pub cluster_id : String
  pub implementor : Lb W
  pub templates : Templates
  pub fip_region_annotation : String
  pub selects : Labels → Bool
  pub ensure_node_bgp_enabled : String → Action W NodeBgpInfo
  pub service_hash : String → String

unfoldable pub service_annotation : Option Service → String → String
service_annotation none annotation = ""
service_annotation (some svc) annotation = index svc.annotations annotation

unfoldable pub is_service_managed : Service → Bool
unfolding service_annotation
is_service_managed svc = service_annotation (some svc) annotation_load_balancer_managed != "false"

unfoldable pub service_rep : Option Service → String
service_rep none = ""
service_rep (some svc) = svc.namespace <> "/" <> svc.name

unfoldable pub service_tag : (String → String) → Option Service → String × String
unfolding service_rep
service_tag hash none = ("", "")
service_tag hash (some svc) = ("service", hash (service_rep (some svc)))

abbrev pub cluster_tag : String → String × String
cluster_tag cluster_id = ("cluster", cluster_id)

module _ {W : Type 0} (l : LoadBalancers W) where
  -- The tags by which the reservation of a service is found, and with which it is created.
  unfoldable pub service_tags : Service → Labels
  unfolding service_tag
  service_tags svc =
      service_tag l.service_hash (some svc)
      ∷ cluster_tag l.cluster_id
      ∷ (cherry_tag, cherry_value)
      ∷ []

  abbrev pub reservation_of : Service → List IpAddress → Option IpAddress
  reservation_of svc ips = ip_reservation_by_all_tags (service_tags svc) ips

  unfoldable pub get_load_balancer_name : Service → String
  unfolding service_tag
  get_load_balancer_name svc =
      let (tag, value) = service_tag l.service_hash (some svc) in
      let (cls_tag, cls_value) = cluster_tag l.cluster_id in
      cherry_tag <> "=" <> cherry_value <> ":" <> tag <> "=" <> value <> ":" <> cls_tag <> "="
      <> cls_value

  unfoldable pub filter_nodes : List KubeNode → List KubeNode
  filter_nodes nodes = filter (λ (n : KubeNode). l.selects n.labels) nodes
