-- ===== src/Tests/ConfigFile.antt =====
-- The configuration file of MetalLB, at concrete peers and pools.
use cloud_provider_cherry.Prelude.{String, Bool, some, List, [], ◌∷◌, ◌≡◌, refl, true, false, All}
use cloud_provider_cherry.Metallb.Config.{AddressPool, ConfigFile, Peer}
use cloud_provider_cherry.Metallb.Config.Peers.{
  LacksService, remove_peers_by_service, remove_peers_by_service-All,
}
use cloud_provider_cherry.Metallb.Config.Pools.{add_address_pool}
use cloud_provider_cherry.Metallb.Config.Compare.{equal}
use cloud_provider_cherry.Metallb.Config.Pools.Adding.{IsNamed}
use cloud_provider_cherry.Metallb.Config.Pools.Plain.{add_address_pool_returns}
use cloud_provider_cherry.Tests.Services.{web, selectors}

abbrev pool : String → List String → AddressPool
pool name addresses = record {
  protocol = "bgp";
  name = name;
  addresses = addresses;
  avoid_buggy_ips = false;
  auto_assign = some false;
  bgp_advertisements = [];
}

abbrev pub peer : Peer
peer = record {
  my_asn = 65000;
  asn = 65530;
  addr = "10.0.0.1";
  port = 179;
  src_addr = "";
  hold_time = "";
  router_id = "";
  node_selectors = selectors;
  password = "";
  ebgp_multi_hop = false;
  name = "node-1";
}

abbrev pub cfg : ConfigFile
cfg = record {
  peers = peer ∷ [];
  bgp_communities = [];
  pools = pool "web" ("10.1.0.2/32" ∷ "10.1.0.1/32" ∷ []) ∷ [];
}

abbrev added : AddressPool
added = pool "api" ("10.1.0.1/32" ∷ "10.1.0.2/32" ∷ [])

add_address_pool_returns_example :
    (after : ConfigFile) × (changed : Bool) × (add_address_pool (some added) cfg
      ≡ some (after, changed))
    × IsNamed "api" after.pools
    × ((after.peers ≡ cfg.peers) × (after.bgp_communities ≡ cfg.bgp_communities))
add_address_pool_returns_example =
    add_address_pool_returns added cfg refl ((false, refl), refl) (((false, refl), refl), tt)

-- Both names stand in the name of the one pool, whose addresses are sorted.
merged_run :
    add_address_pool (some added) cfg
    ≡ some (record cfg { pools = pool "api,web" ("10.1.0.1/32" ∷ "10.1.0.2/32" ∷ []) ∷ [] }, true)
unfolding add_address_pool equal
merged_run = refl

remove_peers_by_service-All_case :
    All (LacksService web) (remove_peers_by_service web cfg).0.peers
    × ((remove_peers_by_service web cfg).0.pools ≡ cfg.pools)
    × ((remove_peers_by_service web cfg).0.bgp_communities ≡ cfg.bgp_communities)
remove_peers_by_service-All_case = remove_peers_by_service-All web cfg refl
