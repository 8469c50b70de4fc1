-- ===== src/Metallb/Crd/Peers.antt =====
-- The peers of crd.go: UpdatePeersByService, RemovePeersByService and updateOrDeletePeerByService.
pub mod Spec
pub mod Match
pub mod Leak
use cloud_provider_cherry.Prelude.{
  ℕ, ◌+◌, ◌<◌, String, ◌<>◌, Bool, true, false, not, ◌&&◌, ◌||◌, Option, none, some, List, [], ◌∷◌,
  ◌++◌, map, ◌==◌, ◌!=◌, string_eq, nat_eq, bool_eq, if◌then◌else◌, ltb, Labels, insert, erase,
  contains, length, has_prefix, trim_prefix, sort_strings,
}
use cloud_provider_cherry.Effect.{
  Error, Result, ok, err, wrap, Action, pure, lift, wrapping, ◌>>=◌, ◌>>◌,
}
use cloud_provider_cherry.Metallb.Resource.{Resource}
use cloud_provider_cherry.Metallb.Config.{Peer}
use cloud_provider_cherry.Metallb.Api.{BgpPeerSpec, BgpPeer, Object, Kind, named_object}
use cloud_provider_cherry.Metallb.Crd.{
  cpem_labels, convert_to_bgp_peer, peer_add_service, peer_remove_service, peer_spec_equal,
}

-- What a peer in the cluster becomes when a wanted peer has its name, and whether it must be
-- patched: lines 68 to 78 of crd.go.
unfoldable pub match_peer : Resource → BgpPeer → BgpPeer → BgpPeer × Bool
match_peer svc o n =
    let (o', added) = peer_add_service svc o in
    if peer_spec_equal o'.spec n.spec then (o', added) else (record o' { spec = n.spec }, true)

-- The wanted peers, keyed by their names.
unfoldable pub keyed : List BgpPeer → List (String × BgpPeer) → List (String × BgpPeer)
keyed [] to_add = to_add
keyed (n ∷ ns) to_add = keyed ns (insert n.name n to_add)

module _ {W : Type 0} (peers : Kind W BgpPeerSpec) where
  -- listBGPPeers, of the configurer's namespace
  unfoldable pub list_bgp_peers : String → W → Result (List BgpPeer)
  list_bgp_peers namespace w =
      wrap "unable to retrieve a list of BGPPeers" (peers.list cpem_labels namespace w)

  unfoldable pub update_or_delete_peer : Resource → BgpPeer → Action W Bool
  update_or_delete_peer svc o =
      let (o', changed, size) = peer_remove_service svc o in
      if changed
      then (if ltb 0 size
          then (do wrapping "unable to update BGPPeer" (peers.patch o o'); pure true)
          else (do wrapping "unable to delete BGPPeer" (peers.delete o'); pure true))
      else pure false

  unfoldable pub remove_from_peers : Resource → List BgpPeer → Bool → Action W Bool
  remove_from_peers svc [] changed = pure changed
  remove_from_peers svc (o ∷ os) changed = do
    removed ← update_or_delete_peer svc o
    remove_from_peers svc os (if changed then true else removed)

  -- RemovePeersByService: the loop's `changed` is computed and not returned.
  unfoldable pub remove_peers_by_service : String → Resource → Action W Bool
  unfolding remove_from_peers update_or_delete_peer list_bgp_peers
  remove_peers_by_service namespace svc w = elim (list_bgp_peers namespace w) [
    | err e ↦ (err e, w)
    | ok olds ↦ (do remove_from_peers svc olds false; pure true) w
  ]

  unfoldable pub create_peers : List BgpPeer → Action W Unit
  create_peers [] = pure tt
  create_peers (n ∷ ns) = do wrapping "unable to add BGPPeer" (peers.create n); create_peers ns

  -- One round of the loop over the peers in the cluster, over `toAdd` and `changed`.
  unfoldable pub visit_peer :
      Resource
      → List BgpPeer
      → BgpPeer
      → List (String × BgpPeer)
      → Bool
      → Action W (List (String × BgpPeer) × Bool)
  visit_peer svc news o to_add changed = elim (named_object o.name news) [
    | none ↦ (do
      removed ← update_or_delete_peer svc o
      pure (to_add, if changed then true else removed))
    | some n ↦
        let (o', update) = match_peer svc o n in
        let rest = erase n.name to_add in
        if update
        then (do wrapping "unable to update IPAddressPool" (peers.patch o o'); pure (rest, true))
        else pure (rest, changed)
  ]

  unfoldable pub visit_peers :
      Resource
      → List BgpPeer
      → List BgpPeer
      → List (String × BgpPeer)
      → Bool
      → Action W (List (String × BgpPeer) × Bool)
  visit_peers svc news [] to_add changed = pure (to_add, changed)
  visit_peers svc news (o ∷ os) to_add changed = do
    r ← visit_peer svc news o to_add changed
    visit_peers svc news os r.0 r.1

  -- The last loop; `toAdd` is ranged over in the order `range`.
  unfoldable pub add_peers : Resource → List BgpPeer → Bool → Action W Bool
  add_peers svc [] changed = pure changed
  add_peers svc (n ∷ ns) changed = do
    wrapping "unable to add BGPPeer" (peers.create (peer_add_service svc n).0)
    add_peers svc ns true

  -- UpdatePeersByService
  unfoldable pub update_peers_by_service :
      (parse_duration : String → ℕ) (range : List BgpPeer → List BgpPeer) (namespace : String)
      → List Peer
      → Resource
      → Action W Bool
  unfolding list_bgp_peers create_peers visit_peers visit_peer add_peers
  update_peers_by_service parse_duration range namespace adds svc w =
      let news = map (λ add. convert_to_bgp_peer parse_duration add namespace) adds in
      elim (list_bgp_peers namespace w) [
        | err e ↦ (err e, w)
        | ok [] ↦ (do create_peers news; pure true) w
        | ok (o ∷ os) ↦
            (do
              r ← visit_peers svc news (o ∷ os) (keyed news []) false
              add_peers svc (range (map (λ kv. kv.1) r.0)) r.1)
              w
      ]
