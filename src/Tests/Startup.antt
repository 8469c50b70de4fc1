-- ===== src/Tests/Startup.antt =====
-- The start of the provider, at a concrete configuration.
use cloud_provider_cherry.Prelude.{
  ◌<>◌, true, false, not, Option, none, some, [], ◌≡◌, refl, ◌==◌, string_eq, pos,
}
use cloud_provider_cherry.Effect.{ok, err, message}
use cloud_provider_cherry.ControlPlane.{Manager, control_plane_labels}
use cloud_provider_cherry.ControlPlane.Endpoints.{split_tag}
use cloud_provider_cherry.ControlPlane.Start.{Network, new_manager, server_name_from_config}
use cloud_provider_cherry.ControlPlane.Start.Tag.{fresh, split_tag-joined, new_manager-eq-ok}
use cloud_provider_cherry.Bgp.{Bgp, Client, enable_bgp}
use cloud_provider_cherry.Metallb.Peers.{mode_frr, mode_string, parse_config_url}
use cloud_provider_cherry.Metallb.Peers.Modes.{parse_config_url-mode_string}
use cloud_provider_cherry.ProviderConfig.{Config}
use cloud_provider_cherry.Startup.{Cloud, new_cloud, initialize, load_balancer, instances_v2}
use cloud_provider_cherry.Startup.Offers.{initialize-eq-ok}
use cloud_provider_cherry.Tests.Bgp.{text_netip, file_config}
use cloud_provider_cherry.Tests.Choice.{libraries}
use cloud_provider_cherry.Tests.Controller.{World, calls}

-- A network in which every host is the one of the cluster.
abbrev network : Network
network = record {
  parse_url = λ host. ok (record { scheme = "https"; hostname = "api.example.org:6443" });
  split_host_port = λ host. ok "api.example.org";
  http_client_for = λ name. none;
  new_requirement = λ label. none;
}

split_tag-joined_case : split_tag ("fip" <> ("=" <> "main=1")) ≡ ("fip", "main=1")
split_tag-joined_case = split_tag-joined "fip" "main=1" refl

abbrev made_of_main : Option Manager
made_of_main =
    elim (new_manager network "https://api.example.org:6443" "fip=main" (pos 6443) true) [
      | ok m ↦ m
      | err e ↦ none
    ]

new_manager-eq-ok_example :
    made_of_main ≡ some (fresh "fip" "main" (pos 6443) true control_plane_labels)
unfolding new_manager
new_manager-eq-ok_example =
    new_manager-eq-ok network "https://api.example.org:6443" "fip" "main" (pos 6443) true refl refl

server_name_run : server_name_from_config network "https://api.example.org:6443" ≡ "api.example.org"
unfolding server_name_from_config
server_name_run = refl

parse_config_url-mode_string_case :
    (parse_config_url "/metallb-system" (mode_string mode_frr)).1 ≡ some mode_frr
parse_config_url-mode_string_case = parse_config_url-mode_string "/metallb-system" mode_frr

-- A project whose BGP is on already.
abbrev client : Client World
client = record {
  get_project = λ id w. (ok (record { name = "main"; bgp_enabled = true; local_asn = 65000 }), w);
  update_project = λ id name enabled w. (err (message "refused"), w);
  get_server = λ id w. (err (message "refused"), w);
  update_server = λ id tags enabled w. (err (message "refused"), w);
}

abbrev config : Config
config = record file_config { fip_tag = "fip=main"; load_balancer_setting = "empty://" }

abbrev started : Cloud World
started =
    elim (initialize network "https://api.example.org:6443" client text_netip libraries calls
      (new_cloud config) ([], [])).0 [ ok c ↦ c | err e ↦ new_cloud config ]

initialize-eq-ok_example :
    (started.config ≡ config)
    × ((load_balancer started).1 ≡ not (config.load_balancer_setting == ""))
    × ((instances_v2 started).0 ≡ some (record { project = config.project_id }))
    × ((b : Bgp) × (started.bgp ≡ some b) × (b.project ≡ config.project_id))
    × (new_manager network "https://api.example.org:6443" config.fip_tag config.api_server_port
          config.fip_health_check_use_host_ip
        ≡ ok started.control_plane_endpoint_manager)
unfolding initialize new_cloud new_manager cloud_provider_cherry.Bgp.new_bgp
    cloud_provider_cherry.Controller.Choice.new_load_balancers
initialize-eq-ok_example =
    initialize-eq-ok network "https://api.example.org:6443" client text_netip libraries calls
      (new_cloud config) ([], []) refl

-- Before Initialize there is no load balancer, and the instances are a nil pointer that is offered
-- as supported.
before_run :
    ((load_balancer (new_cloud {W = World} config)).1 ≡ false)
    × (instances_v2 (new_cloud {W = World} config) ≡ (none, true))
unfolding load_balancer instances_v2 new_cloud
before_run = (refl, refl)
