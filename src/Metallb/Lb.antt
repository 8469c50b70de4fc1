-- ===== src/Metallb/Lb.antt =====
-- cherry/loadbalancers/metallb/metallb.go: the load balancer over a configurer.
pub mod Laws
use cloud_provider_cherry.Prelude.{
  ℕ, String, ◌<>◌, Bool, true, false, ◌&&◌, ◌||◌, Option, none, some, List, [], ◌∷◌, ◌==◌, nat_eq,
  string_eq, if◌then◌else◌, leb, Labels, index, insert,
}
use Prim.Native.Char.{code}
use cloud_provider_cherry.Effect.{
  Error, message, Result, ok, err, wrap, Action, pure, fail, wrapping, ◌>>=◌, ◌>>◌,
}
use cloud_provider_cherry.LoadBalancers.{Node, Service, Lb}
use cloud_provider_cherry.Metallb.Resource.{Resource}
use cloud_provider_cherry.Metallb.Config.{Peer, AddressPool}

abbrev pub load_balancer_ips_annotation : String
load_balancer_ips_annotation = "metallb.io/loadBalancerIPs"

abbrev pub old_load_balancer_ips_annotation : String
old_load_balancer_ips_annotation = "metallb.universe.tf/loadBalancerIPs"

abbrev pub default_namespace : String
default_namespace = "metallb-system"

-- The methods of Configurer that the load balancer calls.
pub record Configurer (W : Type 0) : Type 0 where
  pub get : Action W Unit
  pub update : Action W Unit
  pub update_peers_by_service : List Peer → Resource → Action W Bool
  pub remove_peers_by_service : Resource → Action W Bool
  pub add_address_pool : AddressPool → Resource → Action W Bool
  pub remove_address_pool : String → Action W Unit

-- ServiceIP, whose result is none where the source's second result is false.
unfoldable pub service_ip : Option Service → Option String
service_ip none = none
service_ip (some svc) =
    let ip = index svc.annotations load_balancer_ips_annotation in
    let old_ip = index svc.annotations old_load_balancer_ips_annotation in
    if ip == ""
    then (if old_ip == ""
        then (if svc.load_balancer_ip == "" then none else some svc.load_balancer_ip)
        else some old_ip)
    else some ip

unfoldable pub set_service_ip : Option Service → String → Result Service
unfolding insert
set_service_ip none ip = err (message "failed to set ip, service is nil")
set_service_ip (some svc) ip =
    ok (record svc { annotations = insert load_balancer_ips_annotation ip svc.annotations })

-- What the pattern `[^a-zA-Z0-9-]+` leaves of a text.
unfoldable pub keep_plain : String → String
keep_plain String.[] = String.[]
keep_plain (String.◌∷◌ c s) =
    let rest = keep_plain s in
    let n = code c in
    if (leb b'a' n && leb n b'z')
      || (leb b'A' n && leb n b'Z')
      || (leb b'0' n && leb n b'9')
      || n == b'-'
    then String.◌∷◌ c rest
    else rest

unfoldable pub pool_name : Resource → String
unfolding keep_plain
pool_name svc = keep_plain svc.namespace <> "." <> keep_plain svc.name

unfoldable pub service_pool : String → Resource → AddressPool
unfolding pool_name
service_pool addr svc = record {
  protocol = "bgp";
  name = pool_name svc;
  addresses = addr ∷ [];
  avoid_buggy_ips = false;
  auto_assign = some false;
  bgp_advertisements = [];
}

module _ {W : Type 0} (config : Configurer W) where
  unfoldable pub map_ip : String → Resource → Action W Unit
  unfolding service_pool
  map_ip addr svc = do
    added ← wrapping "failed to add IP" (config.add_address_pool (service_pool addr svc) svc)
    if added then wrapping "error updating" config.update else pure tt

  unfoldable pub unmap_ip : Resource → Action W Unit
  unfolding pool_name
  unmap_ip svc = do
    wrapping "error removing IPAddressPool" (config.remove_address_pool (pool_name svc))
    wrapping "error updating" config.update

  unfoldable pub add_nodes : (List Node → List Peer) → Resource → List Node → Action W Unit
  add_nodes peers_from_nodes svc nodes = do
    wrapping "unable to get metallb config" config.get
    changed ←
        wrapping "unable to update nodes"
          (config.update_peers_by_service (peers_from_nodes nodes) svc)
    if changed then config.update else pure tt

  -- LB.AddService
  unfoldable pub add_service :
      (List Node → List Peer) → Resource → String → List Node → Action W Unit
  unfolding map_ip add_nodes
  add_service peers_from_nodes svc ip nodes = do
    wrapping "unable to add retrieve metallb config" config.get
    wrapping "unable to map IP to service" (map_ip ip svc)
    wrapping "failed to add nodes" (add_nodes peers_from_nodes svc nodes)

  -- LB.UpdateService
  unfoldable pub update_service : (List Node → List Peer) → Resource → List Node → Action W Unit
  unfolding add_nodes
  update_service peers_from_nodes svc nodes =
      wrapping "failed to add nodes" (add_nodes peers_from_nodes svc nodes)

  -- LB.RemoveService
  unfoldable pub remove_service : Resource → Action W Unit
  unfolding unmap_ip
  remove_service svc = do
    wrapping "unable to retrieve metallb config" config.get
    wrapping "failed to remove IP" (unmap_ip svc)
    removed ← wrapping "unable to remove service" (config.remove_peers_by_service svc)
    if removed then wrapping "unable to remove service" config.update else pure tt

  -- LB, of metallb.go.
  abbrev pub metallb : (List Node → List Peer) → Lb W
  metallb peers_from_nodes = record {
    service_ip = service_ip;
    set_service_ip = set_service_ip;
    add_service = λ namespace name ip nodes.
        add_service peers_from_nodes (record { namespace = namespace; name = name }) ip nodes;
    remove_service =
        λ namespace name ip. remove_service (record { namespace = namespace; name = name });
    update_service = λ namespace name nodes.
        update_service peers_from_nodes (record { namespace = namespace; name = name }) nodes;
  }

-- NewLB: the configurer of a namespace, which stands for the client that NewLB builds.
unfoldable pub new_lb :
    {W : Type 0} → (String → Configurer W) → String → (List Node → List Peer) → Lb W
new_lb configurer namespace peers_from_nodes =
    metallb (configurer (if namespace == "" then default_namespace else namespace)) peers_from_nodes
