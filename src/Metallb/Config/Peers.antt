-- ===== src/Metallb/Config/Peers.antt =====
-- The peers of the configuration file: ConfigFile.RemovePeersByService of
-- cherry/loadbalancers/metallb/config.go.
use cloud_provider_cherry.Prelude.{
  Bool, true, false, not, ◌||◌, List, [], ◌∷◌, ◌≡◌, refl, if◌then◌else◌, leb, All, contains,
  Bool-cases, inl, inr,
}
use cloud_provider_cherry.Metallb.Resource.{Resource, resource_eq}
use cloud_provider_cherry.Metallb.Services.{remove_service, services, is_named}
use cloud_provider_cherry.Metallb.Services.Updates.{contains-remove_service}
use cloud_provider_cherry.Metallb.Config.{Peer, ConfigFile, node_selector}

-- The loop: the peers that are kept, and whether anything changed.
unfoldable pub remove_from_peers : Resource → List Peer → List Peer × Bool
unfolding remove_service
remove_from_peers svc [] = ([], false)
remove_from_peers svc (p ∷ ps) =
    let (selectors, peer_changed, size) = remove_service svc p.node_selectors in
    let (kept, changed) = remove_from_peers svc ps in
    (
      if not peer_changed || leb 1 size
          then record p { node_selectors = selectors } ∷ kept
          else kept,
      (peer_changed || leb size 0) || changed,
    )

unfoldable pub remove_peers_by_service : Resource → ConfigFile → ConfigFile × Bool
unfolding remove_from_peers
remove_peers_by_service svc cfg =
    let (kept, changed) = remove_from_peers svc cfg.peers in (record cfg { peers = kept }, changed)

abbrev pub LacksService : Resource → Peer → Type 0
LacksService svc p = contains svc (services p.node_selectors) ≡ false

remove_from_peers-All :
    (svc : Resource) (ps : List Peer)
    → is_named svc ≡ true
    → All (LacksService svc) (remove_from_peers svc ps).0
unfolding remove_from_peers
remove_from_peers-All svc [] named = tt
remove_from_peers-All svc (p ∷ ps) named =
    elim (Bool-cases (
      not (remove_service svc p.node_selectors).1
      || leb 1 (remove_service svc p.node_selectors).2)) [
        | inl e ↦
            rw e (
              contains-remove_service svc p.node_selectors named,
              remove_from_peers-All svc ps named,
            )
        | inr e ↦ rw e (remove_from_peers-All svc ps named)
      ]

-- Of a service with a name and a namespace: after RemovePeersByService no peer of the configuration
-- file serves the service, and the pools and communities are as they were.
pub remove_peers_by_service-All :
    (svc : Resource) (cfg : ConfigFile)
    → is_named svc ≡ true
    → let after = (remove_peers_by_service svc cfg).0 in
      All (LacksService svc) after.peers
      × (after.pools ≡ cfg.pools)
      × (after.bgp_communities ≡ cfg.bgp_communities)
unfolding remove_peers_by_service
remove_peers_by_service-All svc cfg named = (remove_from_peers-All svc cfg.peers named, refl, refl)
