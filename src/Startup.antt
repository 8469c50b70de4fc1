-- ===== src/Startup.antt =====
-- cherry/cloud.go and cloudInitializer of main.go: the provider that is registered, what Initialize
-- makes of it, and what it offers. klog.Fatalf, which ends the process, is an error here. The
-- clients are parameters, and so is cloudprovider.InitCloudProvider.
pub mod Offers
use cloud_provider_cherry.Prelude.{
  String, Bool, true, false, not, Option, none, some, ℤ, if◌then◌else◌,
}
use cloud_provider_cherry.Effect.{
  Error, message, wrapped, Result, ok, err, wrap, Action, pure, lift, wrapping, ◌>>=◌,
}
use cloud_provider_cherry.Instances.{provider_name}
use cloud_provider_cherry.Instances.Lookup.{Netip}
use cloud_provider_cherry.ProviderConfig.{Config}
use cloud_provider_cherry.ControlPlane.{Manager}
use cloud_provider_cherry.ControlPlane.Start.{Network, new_manager}
use cloud_provider_cherry.Bgp.{Bgp, Client, new_bgp, ensure_node_bgp_enabled}
use cloud_provider_cherry.Controller.{Calls, Templates}
use cloud_provider_cherry.Controller.Choice.{Libraries, Setting, Made, disabled, new_load_balancers}

-- `instances`, beside its client.
pub record Instances : Type 0 where
  pub project : ℤ

unfoldable pub new_instances : ℤ → Instances
new_instances project = record { project = project }

-- `cloud`, beside its client; `disabled` and none are nil.
pub record Cloud (W : Type 0) : Type 0 where
  pub config : Config
  pub instances : Option Instances
  pub load_balancer : Made W
  pub control_plane_endpoint_manager : Option Manager
  pub bgp : Option Bgp

unfoldable pub new_cloud : {W : Type 0} → Config → Cloud W
new_cloud config = record {
  config = config;
  instances = none;
  load_balancer = disabled;
  control_plane_endpoint_manager = none;
  bgp = none;
}

-- The function that init registers, of the result of getConfig and of the error of
-- cherrygo.NewClient with a token.
unfoldable pub provider : {W : Type 0} → (String → Option Error) → Result Config → Result (Cloud W)
unfolding new_cloud
provider new_client (err e) = err (wrapped "provider config error" e)
provider new_client (ok config) = elim (new_client config.auth_token) [
  | some e ↦ err (message "unable to initialize cherrygo client")
  | none ↦ ok (new_cloud config)
]

-- What newLoadBalancers is given of the configuration.
unfoldable pub setting_of : Config → Setting
setting_of c = record {
  config = c.load_balancer_setting;
  node_selector = c.bgp_node_selector;
  region = c.region;
  templates = record {
    local_asn = c.annotation_local_asn;
    peer_asn = c.annotation_peer_asn;
    peer_ip = c.annotation_peer_ip;
    src_ip = c.annotation_src_ip;
    multi_hop = c.annotation_multi_hop;
  };
  fip_region_annotation = c.annotation_fip_region;
}

module _ {W Addr : Type 0} (net : Network) (host : String) (client : Client W) (netip : Netip Addr)
    (lib : Libraries W) (calls : Calls W) where
  unfoldable pub initialize : Cloud W → Action W (Cloud W)
  unfolding setting_of new_instances
  initialize c = do
    manager ← wrapping "could not initialize ControlPlaneEndpointManager" (
        lift (
          new_manager net host c.config.fip_tag c.config.api_server_port
            c.config.fip_health_check_use_host_ip))
    bgp ← wrapping "could not initialize BGP" (new_bgp client c.config.project_id)
    lb ← wrapping "could not initialize LoadBalancers" (
        new_load_balancers lib calls (ensure_node_bgp_enabled client netip bgp)
          (setting_of c.config))
    pure (record c {
      load_balancer = lb;
      bgp = some bgp;
      instances = some (new_instances c.config.project_id);
      control_plane_endpoint_manager = manager;
    })

-- LoadBalancer and InstancesV2, and whether the interface is supported.
abbrev pub is_there : {W : Type 0} → Made W → Bool
is_there disabled = false
is_there other = true

module _ {W : Type 0} where
  unfoldable pub load_balancer : Cloud W → Made W × Bool
  load_balancer c = (c.load_balancer, is_there c.load_balancer)

  unfoldable pub instances_v2 : Cloud W → Option Instances × Bool
  instances_v2 c = (c.instances, true)

  -- Instances, Zones, Clusters and Routes, which are all nil and not supported.
  unfoldable pub unsupported : Cloud W → Option {0} (Unit {0}) × Bool
  unsupported c = (none, false)

  -- ProviderName
  unfoldable pub name_of_provider : Cloud W → String
  name_of_provider c = provider_name

  unfoldable pub has_cluster_id : Cloud W → Bool
  has_cluster_id c = true

  -- cloudInitializer of main.go, of what InitCloudProvider answers and of AllowUntaggedCloud.
  unfoldable pub cloud_initializer : Result (Option (Cloud W)) → Bool → Result (Cloud W)
  unfolding has_cluster_id
  cloud_initializer (err e) allow_untagged =
      err (wrapped "Cloud provider could not be initialized" e)
  cloud_initializer (ok none) allow_untagged = err (message "Cloud provider is nil")
  cloud_initializer (ok (some c)) allow_untagged =
      if not (has_cluster_id c)
      then (if allow_untagged then ok c else err (message "no ClusterID found"))
      else ok c
