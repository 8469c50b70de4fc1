-- ===== src/Tests/Peers.antt =====
-- The peers and the address pools of a cluster, at concrete objects.
use cloud_provider_cherry.Prelude.{
  ℕ, ◌+◌, String, ◌≡◌, ◌≢◌, ◌⊎◌, ◌==◌, ◌||◌, refl, true, false, not, Option, none, some, List, [],
  ◌∷◌, contains, length, string_eq, All, sort,
}
use cloud_provider_cherry.Effect.{message, ok, err}
use cloud_provider_cherry.Metallb.Resource.{resource_eq}
use cloud_provider_cherry.Metallb.Config.{AddressPool, Peer, node_selector}
use cloud_provider_cherry.Metallb.Services.{
  service_name_key, service_namespace_key, service_of, services, remove_service,
}
use cloud_provider_cherry.Metallb.Api.{
  IpAddressPoolSpec, ApiSelector, api_selector, BgpPeer, IpAddressPool, BgpAdvertisementSpec, Kind,
}
use cloud_provider_cherry.Metallb.Crd.{
  cpem_labels, convert_to_ip_addr, convert_to_bgp_peer, peer_remove_service,
}
use cloud_provider_cherry.Metallb.Crd.Peers.{
  match_peer, remove_peers_by_service, update_peers_by_service,
}
use cloud_provider_cherry.Metallb.Crd.Peers.Spec.{
  serves, lacking, remove_peers_by_service_lem, remove_peers_by_service_gone,
}
use cloud_provider_cherry.Metallb.Crd.Peers.Match.{Agrees, match_peer_lem}
use cloud_provider_cherry.Metallb.Crd.Peers.Leak.{wanted, first_service_leaks}
use cloud_provider_cherry.Metallb.Crd.Pools.{
  add_address_pool, merge_addresses, remove_address_pool, list_pools, list_advertisements,
}
use cloud_provider_cherry.Metallb.Crd.Pools.Adding.{IsPoolOf, add_address_pool_lem}
use cloud_provider_cherry.Metallb.Crd.Pools.Laws.{length-merge_addresses, remove_address_pool_lem}
use cloud_provider_cherry.Tests.Cluster.{one_object, shown, one_object-IsLawful}
use cloud_provider_cherry.Tests.Services.{web, api}

abbrev api_selectors : List ApiSelector
api_selectors =
    record {
      match_labels = (service_name_key, "web") ∷ (service_namespace_key, "default") ∷ [];
      match_expressions = [];
    }
    ∷ record {
      match_labels = (service_name_key, "api") ∷ (service_namespace_key, "staging") ∷ [];
      match_expressions = [];
    }
    ∷ []

abbrev pub old_peer : BgpPeer
old_peer = record {
  name = "node-1-10.0.0.1";
  namespace = "metallb-system";
  labels = [];
  spec = record {
    my_asn = 65000;
    asn = 65530;
    address = "10.0.0.1";
    src_address = "";
    port = 179;
    hold_time = 0;
    router_id = "";
    node_selectors = api_selectors;
    password = "";
    ebgp_multi_hop = false;
  };
}

abbrev new_peer : BgpPeer
new_peer = record old_peer {
  spec = record (old_peer.spec) { password = "secret"; node_selectors = [] };
}

match_peer_lem_example :
    (Agrees old_peer.spec new_peer.spec
      × (selectors : List ApiSelector) × ((match_peer web old_peer new_peer).0
          ≡ record old_peer { spec = record (old_peer.spec) { node_selectors = selectors } })
      × (contains api (services selectors) ≡ (api == web || serves api old_peer))
      × ((match_peer web old_peer new_peer).1 ≡ not (serves web old_peer)))
    ⊎ ((¬ Agrees old_peer.spec new_peer.spec)
        × (match_peer web old_peer new_peer ≡ (record old_peer { spec = new_peer.spec }, true)))
match_peer_lem_example = match_peer_lem web api old_peer new_peer refl

abbrev pub one_peer : Option BgpPeer
one_peer = some old_peer

abbrev pub after_removal : Option BgpPeer
after_removal = (remove_peers_by_service one_object "metallb-system" web one_peer).1

remove_peers_by_service_lem_example :
    (true ≡ true) × ((n : String) → shown after_removal n ≡ lacking web (shown one_peer n))
unfolding remove_peers_by_service peer_remove_service remove_service service_of sort
remove_peers_by_service_lem_example =
    remove_peers_by_service_lem "metallb-system" one_object shown
      (one_object-IsLawful cpem_labels "metallb-system") web one_peer after_removal true refl

abbrev pub without_web : BgpPeer
without_web = (peer_remove_service web old_peer).0

remove_peers_by_service_gone_case :
    contains web (services (peer_remove_service web old_peer).0.spec.node_selectors) ≡ false
unfolding remove_peers_by_service peer_remove_service remove_service service_of sort
remove_peers_by_service_gone_case =
    remove_peers_by_service_gone "metallb-system" one_object shown
      (one_object-IsLawful cpem_labels "metallb-system") web one_peer after_removal true
      "node-1-10.0.0.1" without_web refl refl refl

abbrev configured : Peer
configured = record {
  my_asn = 65000;
  asn = 65530;
  addr = "10.0.0.1";
  port = 179;
  src_addr = "";
  hold_time = "";
  router_id = "";
  node_selectors = [];
  password = "";
  ebgp_multi_hop = false;
  name = "node-1-10.0.0.1";
}

abbrev no_duration : String → ℕ
no_duration text = 0

abbrev same_order : List BgpPeer → List BgpPeer
same_order l = l

abbrev after_update : Option BgpPeer
after_update =
    (update_peers_by_service one_object no_duration same_order "metallb-system" (configured ∷ [])
      web none).1

abbrev after_both : Option BgpPeer
after_both = (remove_peers_by_service one_object "metallb-system" web after_update).1

first_service_leaks_example :
    ((n : String) → shown after_both n ≡ shown after_update n)
    × All
        (λ add. shown after_both add.name ≢ none)
        (wanted "metallb-system" one_object shown
          (one_object-IsLawful cpem_labels "metallb-system")
          no_duration
          same_order
          (configured ∷ []))
unfolding update_peers_by_service remove_peers_by_service services peer_remove_service
    remove_service convert_to_bgp_peer
first_service_leaks_example =
    first_service_leaks "metallb-system" one_object shown
      (one_object-IsLawful cpem_labels "metallb-system") no_duration same_order (configured ∷ [])
      web none after_update after_both true true refl (refl, tt) refl refl refl

length-merge_addresses_case :
    length (merge_addresses ("10.1.0.1/32" ∷ []) ("10.1.0.2/32" ∷ "10.1.0.1/32" ∷ [])) ≡ 1 + 2
length-merge_addresses_case =
    length-merge_addresses ("10.1.0.1/32" ∷ []) ("10.1.0.2/32" ∷ "10.1.0.1/32" ∷ [])

-- The duplicate leaves an empty address.
merged_addresses :
    merge_addresses ("10.1.0.1/32" ∷ []) ("10.1.0.2/32" ∷ "10.1.0.1/32" ∷ [])
    ≡ "10.1.0.1/32" ∷ "10.1.0.2/32" ∷ "" ∷ []
unfolding merge_addresses sort
merged_addresses = refl

abbrev pub pool : IpAddressPool
pool = record {
  name = "web-pool";
  namespace = "metallb-system";
  labels = ("service-web", "namespace-default") ∷ [];
  spec = record {
    addresses = "10.1.0.1/32" ∷ [];
    auto_assign = some false;
    avoid_buggy_ips = false;
  };
}

-- The advertisements of a cluster without any, beside its pool.
abbrev pub no_advertisements : Kind (Option IpAddressPool) BgpAdvertisementSpec
no_advertisements = record {
  list = λ matching namespace w. ok [];
  create = λ o w. (err (message "refused"), w);
  patch = λ o o' w. (err (message "refused"), w);
  delete = λ o w. (err (message "refused"), w);
}

remove_address_pool_lem_example : shown {A = IpAddressPoolSpec} none "web-pool" ≡ none
unfolding remove_address_pool list_pools list_advertisements
remove_address_pool_lem_example =
    remove_address_pool_lem "metallb-system" no_advertisements one_object shown
      (one_object-IsLawful cpem_labels "metallb-system") (λ o o' w. refl) (λ o w. refl) "web-pool"
      (some pool) none refl refl "web-pool"

abbrev web_pool : AddressPool
web_pool = record {
  protocol = "bgp";
  name = "web-pool";
  addresses = "10.1.0.1/32" ∷ [];
  avoid_buggy_ips = false;
  auto_assign = some false;
  bgp_advertisements = [];
}

abbrev added_pool : IpAddressPool
added_pool = convert_to_ip_addr web_pool "metallb-system" web

-- A cluster that takes advertisements, and lists none.
abbrev advertising : Kind (Option IpAddressPool) BgpAdvertisementSpec
advertising = record {
  list = λ matching namespace w. ok [];
  create = λ o w. (ok tt, w);
  patch = λ o o' w. (ok tt, w);
  delete = λ o w. (ok tt, w);
}

add_address_pool_lem_example :
    (made : IpAddressPool) × (true ≡ true)
    × (shown (some added_pool) "web-pool" ≡ some made)
    × IsPoolOf web_pool "metallb-system" web made
unfolding add_address_pool list_pools list_advertisements convert_to_ip_addr
add_address_pool_lem_example =
    add_address_pool_lem "metallb-system" advertising one_object shown
      (one_object-IsLawful cpem_labels "metallb-system") (λ o w. refl) (λ o o' w. refl) web_pool web
      [] none (some added_pool) true refl refl refl "web-pool"
