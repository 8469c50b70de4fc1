-- ===== src/Tests/Bgp.antt =====
-- BGP of the servers and the configuration of the provider, at concrete inputs.
use mathlib.Core.Path.{subst}
use cloud_provider_cherry.Prelude.{
  String, Bool, true, false, Option, none, some, List, [], ◌∷◌, ◌≡◌, refl, string_eq, nat_eq, ℤ,
  pos, IsInt32, arith, split, atoi, format_nat,
}
use cloud_provider_cherry.Effect.{Error, message, Result, ok, err, ok_inj}
use cloud_provider_cherry.Instances.{server_id_from_provider_id}
use cloud_provider_cherry.Instances.Lookup.{ServerIp, Netip}
use cloud_provider_cherry.Bgp.{NodeBgpInfo, Server, Client, Bgp, ensure_node_bgp_enabled}
use cloud_provider_cherry.Bgp.Laws.{IsInfoOf, IsSwitchedOn, ensure_node_bgp_enabled-eq-ok}
use cloud_provider_cherry.ProviderConfig.{Config, strings, process_config, get_config}
use cloud_provider_cherry.ProviderConfig.Laws.{
  IsUsable, get_config-eq-ok, ignored_settings, strings_mask_token,
}

abbrev pub text_netip : Netip String
text_netip = record { parse_addr = λ text. ok text; is4 = λ addr. true; format = λ addr. addr }

abbrev server : Bool → List ServerIp → Server
server enabled ips = record {
  id = pos 7;
  tags = ("role", "worker") ∷ [];
  bgp_enabled = enabled;
  ip_addresses = ips;
  asn = 65001;
  hosts = "10.0.0.1" ∷ [];
}

-- The world is whether BGP of the server is on; the answer to an update has no addresses.
abbrev client : Client Bool
client = record {
  get_project = λ id w. (err (message "no project"), w);
  update_project = λ id name bgp w. (err (message "no project"), w);
  get_server =
      λ id w. (ok (server w (record { address = "5.1.1.9"; type = "primary-ip" } ∷ [])), w);
  update_server = λ id tags bgp w. (ok (server bgp []), bgp);
}

abbrev bgp : Bgp
bgp = record { project = pos 1; local_asn = 65000 }

abbrev known : NodeBgpInfo
known = record {
  source_ip = "5.1.1.9";
  local_asn = 65000;
  remote_asn = 65001;
  peers = record { address = "10.0.0.1"; port = 179 } ∷ [];
}

ensure_node_bgp_enabled-eq-ok_example :
    (id : ℤ) × (s s' : Server) × (w₁ : Bool) × (server_id_from_provider_id "cherryservers://7"
      ≡ ok id)
    × (client.get_server id false ≡ (ok s, w₁))
    × (IsSwitchedOn text_netip client id s s' w₁ true
        × IsInfoOf text_netip bgp s.ip_addresses s'.hosts known)
unfolding ensure_node_bgp_enabled server_id_from_provider_id split atoi
ensure_node_bgp_enabled-eq-ok_example =
    ensure_node_bgp_enabled-eq-ok text_netip client bgp "cherryservers://7" false true known refl

abbrev pub file_config : Config
file_config = record {
  auth_token = "secret";
  project_id = pos 4050;
  base_url = none;
  load_balancer_setting = "metallb:///";
  region = "LT-Siauliai";
  annotation_local_asn = "";
  annotation_peer_asn = "";
  annotation_peer_ip = "";
  annotation_src_ip = "";
  annotation_fip_region = "";
  annotation_multi_hop = "";
  fip_tag = "";
  api_server_port = pos 6443;
  bgp_node_selector = "";
  fip_health_check_use_host_ip = false;
}

abbrev no_env : String → String
no_env name = ""

abbrev any_selector : String → Option Error
any_selector text = none

abbrev file_is_read : String → Result Config
file_is_read text = ok file_config

abbrev known_config : Config
known_config = record file_config {
  annotation_local_asn = "cherryservers.com/bgp-peers-{{n}}-node-asn";
  annotation_peer_asn = "cherryservers.com/bgp-peers-{{n}}-peer-asn";
  annotation_peer_ip = "cherryservers.com/bgp-peers-{{n}}-peer-ip";
  annotation_src_ip = "cherryservers.com/bgp-peers-{{n}}-src-ip";
  annotation_fip_region = "cherryservers.com/fip-region";
  annotation_multi_hop = "cherryservers.com/bgp-peers-{{n}}-peer-multi-hop";
}

get_config-eq-ok_example : IsUsable any_selector no_env known_config
unfolding get_config format_nat
get_config-eq-ok_example =
    get_config-eq-ok any_selector no_env file_is_read (ok "{}") known_config
      (λ text raw h. subst (λ (c : Config). IsInt32 c.api_server_port) (ok_inj h) (omega arith))
      refl

ignored_settings_case :
    process_config any_selector no_env (record file_config {
      base_url = some "https://example.org";
      annotation_local_asn = "a";
      annotation_peer_asn = "b";
      annotation_peer_ip = "c";
      annotation_src_ip = "d";
      annotation_fip_region = "e";
      annotation_multi_hop = "f";
    })
    ≡ process_config any_selector no_env file_config
ignored_settings_case =
    ignored_settings any_selector no_env file_config (some "https://example.org") "a" "b" "c" "d"
      "e" "f"

strings_mask_token_example :
    strings (record file_config { auth_token = "other" }) ≡ strings file_config
strings_mask_token_example = strings_mask_token file_config "other" refl refl
