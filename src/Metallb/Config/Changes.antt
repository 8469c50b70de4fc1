-- ===== src/Metallb/Config/Changes.antt =====
-- The changes of peers of the configuration file, AddPeer, AddPeerByService, RemovePeer and
-- RemovePeersBySelector of cherry/loadbalancers/metallb/config.go, and the copies of peers and pools.
-- What a comparison does to the slices of the argument is not returned to the caller. Slices that
-- two peers share are taken to be separate.
pub mod Served
use cloud_provider_cherry.Prelude.{
  Bool, true, false, Option, none, some, List, [], ◌∷◌, ◌++◌, map, ◌!=◌, ◌||◌, nat_eq,
  if◌then◌else◌, length,
}
use cloud_provider_cherry.Metallb.Resource.{Resource}
use cloud_provider_cherry.Metallb.Services.{add_service}
use cloud_provider_cherry.Metallb.Peers.{duplicate_selector}
use cloud_provider_cherry.Metallb.Config.{
  NodeSelector, Peer, BgpAdvertisement, AddressPool, ConfigFile, node_selector,
}
use cloud_provider_cherry.Metallb.Config.Selectors.{
  peer_equal, peer_equal_ignore_service, match_selector, with_selectors,
}

-- The loop of AddPeer: whether an equal peer is there, and the peers and the added one after it.
unfoldable pub find_equal : Peer → List Peer → Bool × List Peer × Peer
unfolding peer_equal
find_equal add [] = (false, [], add)
find_equal add (p ∷ ps) =
    let (same, p', add') = peer_equal p add in
    let (found, ps', add'') = find_equal add' ps in
    if same then (true, p' ∷ ps, add') else (found, p' ∷ ps', add'')

-- The configuration, and whether anything changed.
unfoldable pub add_peer : Option Peer → ConfigFile → ConfigFile × Bool
unfolding find_equal
add_peer none cfg = (cfg, false)
add_peer (some add) cfg =
    let (found, peers, add') = find_equal add cfg.peers in
    if found
    then (record cfg { peers = peers }, false)
    else (record cfg { peers = peers ++ add' ∷ [] }, true)

abbrev pub serving : Resource → Peer → Peer
serving svc p = with_selectors p (add_service svc p.node_selectors).0

-- The loop of AddPeerByService: whether a peer matches, and the peers and the added one after it.
unfoldable pub serve_matching : Resource → Peer → List Peer → Bool × List Peer × Peer
unfolding peer_equal_ignore_service add_service
serve_matching svc add [] = (false, [], add)
serve_matching svc add (p ∷ ps) =
    let (same, p', add') = peer_equal_ignore_service p add in
    let (found, ps', add'') = serve_matching svc add' ps in
    (same || found, (if same then serving svc p' else p') ∷ ps', add'')

-- One round of UpdatePeersByService of configmap.go, too.
unfoldable pub serve_peer : Resource → Peer → List Peer → List Peer
unfolding serve_matching add_service
serve_peer svc add ps =
    let (found, ps', add') = serve_matching svc add ps in
    if found then ps' else ps' ++ serving svc add' ∷ []

unfoldable pub add_peer_by_service : Option Peer → Resource → ConfigFile → ConfigFile × Bool
unfolding serve_peer
add_peer_by_service none svc cfg = (cfg, false)
add_peer_by_service (some add) svc cfg = (record cfg { peers = serve_peer svc add cfg.peers }, true)

-- The loop of RemovePeer.
unfoldable pub without_equal : Peer → List Peer → List Peer
unfolding peer_equal
without_equal remove [] = []
without_equal remove (p ∷ ps) =
    let (same, p', remove') = peer_equal p remove in
    let rest = without_equal remove' ps in if same then rest else p' ∷ rest

unfoldable pub remove_peer : Option Peer → ConfigFile → ConfigFile
unfolding without_equal
remove_peer none cfg = cfg
remove_peer (some remove) cfg = record cfg { peers = without_equal remove cfg.peers }

-- The loop of RemovePeersBySelector.
unfoldable pub without_matching : NodeSelector → List Peer → List Peer
unfolding match_selector
without_matching remove [] = []
without_matching remove (p ∷ ps) =
    let (matches, selectors, remove') = match_selector p.node_selectors remove in
    let rest = without_matching remove' ps in
    if matches then rest else with_selectors p selectors ∷ rest

unfoldable pub remove_peers_by_selector : Option NodeSelector → ConfigFile → ConfigFile × Bool
unfolding without_matching
remove_peers_by_selector none cfg = (cfg, false)
remove_peers_by_selector (some remove) cfg =
    let peers = without_matching remove cfg.peers in
    (record cfg { peers = peers }, length peers != length cfg.peers)

-- Peer.Duplicate, which leaves the source address, the multi-hop flag and the name out.
unfoldable pub duplicate_peer : Peer → Peer
unfolding duplicate_selector
duplicate_peer p = record {
  my_asn = p.my_asn;
  asn = p.asn;
  addr = p.addr;
  port = p.port;
  src_addr = "";
  hold_time = p.hold_time;
  router_id = p.router_id;
  node_selectors = map duplicate_selector p.node_selectors;
  password = p.password;
  ebgp_multi_hop = false;
  name = "";
}

-- BgpAdvertisement.Duplicate and AddressPool.Duplicate are none where they follow a nil pointer.
unfoldable pub duplicate_advertisement : BgpAdvertisement → Option BgpAdvertisement
duplicate_advertisement b = elim b.aggregation_length [
  | none ↦ none
  | some n ↦ elim b.local_pref [
    | none ↦ none
    | some pref ↦ some (record {
      aggregation_length = some n;
      local_pref = some pref;
      communities = b.communities;
    })
  ]
]

unfoldable pub duplicate_advertisements : List BgpAdvertisement → Option (List BgpAdvertisement)
unfolding duplicate_advertisement
duplicate_advertisements [] = some []
duplicate_advertisements (b ∷ bs) = elim (duplicate_advertisement b) [
  | none ↦ none
  | some copy ↦ elim (duplicate_advertisements bs) [
    | none ↦ none
    | some copies ↦ some (copy ∷ copies)
  ]
]

unfoldable pub duplicate_pool : AddressPool → Option AddressPool
unfolding duplicate_advertisements
duplicate_pool a = elim a.auto_assign [
  | none ↦ none
  | some assign ↦ elim (duplicate_advertisements a.bgp_advertisements) [
    | none ↦ none
    | some copies ↦ some (record {
      protocol = a.protocol;
      name = a.name;
      addresses = a.addresses;
      avoid_buggy_ips = a.avoid_buggy_ips;
      auto_assign = some assign;
      bgp_advertisements = copies;
    })
  ]
]
