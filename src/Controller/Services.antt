-- ===== src/Controller/Services.antt =====
-- The operations of cherry/loadbalancers.go on services.
pub mod Claiming
pub mod Outcomes
pub mod Deletion
use cloud_provider_cherry.Prelude.{
  String, ◌<>◌, Option, none, some, List, ◌!=◌, string_eq, if◌then◌else◌, before_slash,
}
use cloud_provider_cherry.Effect.{
  Error, message, Result, ok, err, Action, pure, fail, lift, wrap, wrapping, ◌>>=◌, ◌>>◌,
}
use cloud_provider_cherry.Reservations.{IpAddress}
use cloud_provider_cherry.LoadBalancers.{Service}
use cloud_provider_cherry.Controller.{
  KubeNode, LoadBalancers, is_service_managed, service_annotation, service_tags, reservation_of,
  filter_nodes,
}
use cloud_provider_cherry.Controller.Nodes.{nodes_to_update, nodes_to_add}

-- cloudprovider.ImplementedElsewhere
abbrev pub implemented_elsewhere : Error
implemented_elsewhere = message "implemented by alternate to cloud provider"

-- The CIDR of a service that has an address already.
abbrev pub cidr_of : String → Option IpAddress → String
cidr_of ip none = ip <> "/" <> "32"
cidr_of ip (some reservation) = reservation.cidr

module _ {W : Type 0} (l : LoadBalancers W) where
  -- GetLoadBalancer: none where the balancer does not exist, else the IP of its status.
  unfoldable pub get_load_balancer : Service → Action W (Option String)
  unfolding is_service_managed
  get_load_balancer svc =
      if is_service_managed svc
      then (do
        ips ← wrapping "unable to retrieve IP reservations for project" l.calls.list_ips
        elim (reservation_of l svc ips) [
          | none ↦ pure none
          | some reservation ↦ pure (some reservation.cidr)
        ])
      else pure none

  -- The region of a new reservation: of the service, else of the controller.
  unfoldable pub region_of : Service → Result String
  unfolding service_annotation
  region_of svc =
      let own = service_annotation (some svc) l.fip_region_annotation in
      if own != ""
      then ok own
      else if l.region != ""
      then ok l.region
      else err (
          message
            "unable to create load balancer when no IP or region specified, either globally or on service")

  -- The reservation that was found, or a new one.
  unfoldable pub reserve : Service → Option IpAddress → Action W IpAddress
  unfolding region_of
  reserve svc (some reservation) = pure reservation
  reserve svc none = do
    region ← lift (region_of svc)
    wrapping "failed to request an IP for the load balancer"
        (l.calls.create_ip region (service_tags l svc))

  -- The address is set on the latest version of the service, which is saved.
  unfoldable pub save_address : Service → String → Action W Unit
  save_address svc ip = do
    existing ←
        wrapping "failed to get latest for service" (l.calls.get_service svc.namespace svc.name)
    elim existing [
      | none ↦ fail (message "failed to get latest for service")
      | some latest ↦ do
        changed ←
            lift (wrap "failed to set service IP" (l.implementor.set_service_ip (some latest) ip))
        wrapping "failed to update service" (l.calls.update_service changed)
    ]

  -- The first half of addService: the CIDR of the service's address.
  unfoldable pub claim_address : Service → List IpAddress → Action W String
  unfolding reserve save_address
  claim_address svc ips = elim (l.implementor.service_ip (some svc)) [
    | some ip ↦ pure (cidr_of ip (reservation_of l svc ips))
    | none ↦ do
      reservation ← reserve svc (reservation_of l svc ips)
      save_address svc reservation.address
      pure reservation.cidr
  ]

  -- addService
  unfoldable pub add_service : Service → List IpAddress → List KubeNode → Action W String
  unfolding claim_address nodes_to_add
  add_service svc ips nodes = do
    cidr ← claim_address svc ips
    described ← nodes_to_add l nodes
    l.implementor.add_service svc.namespace svc.name cidr described
    pure cidr

  -- EnsureLoadBalancer: the IP of the status.
  unfoldable pub ensure_load_balancer : Service → List KubeNode → Action W String
  unfolding is_service_managed add_service filter_nodes before_slash
  ensure_load_balancer svc nodes =
      if is_service_managed svc
      then (do
        ips ← wrapping "unable to retrieve IP reservations for project" l.calls.list_ips
        cidr ← wrapping "failed to add service" (add_service svc ips (filter_nodes l nodes))
        pure (before_slash cidr))
      else fail implemented_elsewhere

  -- UpdateLoadBalancer
  unfoldable pub update_load_balancer : Service → List KubeNode → Action W Unit
  unfolding is_service_managed nodes_to_update filter_nodes
  update_load_balancer svc nodes =
      if is_service_managed svc
      then (do
        described ← nodes_to_update l (filter_nodes l nodes)
        l.implementor.update_service svc.namespace svc.name described)
      else fail implemented_elsewhere

  -- EnsureLoadBalancerDeleted
  unfoldable pub ensure_load_balancer_deleted : Service → Action W Unit
  unfolding is_service_managed
  ensure_load_balancer_deleted svc =
      if is_service_managed svc
      then (do
        ips ← wrapping "unable to retrieve IP reservations for project" l.calls.list_ips
        elim (reservation_of l svc ips) [
          | none ↦ pure tt
          | some reservation ↦ do
            wrapping "failed to remove IP address reservation from project"
                (l.calls.remove_ip reservation.id)
            wrapping "error removing IP from configmap"
                (l.implementor.remove_service svc.namespace svc.name reservation.cidr)
        ])
      else pure tt
