-- ===== src/Metallb/Crd/Peers/Match.antt =====
-- What UpdatePeersByService makes of a peer in the cluster whose name is that of a wanted peer.
use cloud_provider_cherry.Prelude.{
  ◌≡◌, refl, sym, ◌∙◌, ◌==◌, ◌||◌, ◌⊎◌, Bool, true, false, not, List, string_eq, nat_eq, Bool-cases,
  inl, inr, arith, eq_iff, contains,
}
use cloud_provider_cherry.Metallb.Resource.{Resource, resource_eq}
use cloud_provider_cherry.Metallb.Services.{services, is_named, add_service}
use cloud_provider_cherry.Metallb.Services.Updates.{add_service_lem, contains-add_service}
use cloud_provider_cherry.Metallb.Config.{node_selector}
use cloud_provider_cherry.Metallb.Api.{ApiSelector, BgpPeerSpec, BgpPeer, api_selector}
use cloud_provider_cherry.Metallb.Crd.{peer_add_service, peer_spec_equal}
use cloud_provider_cherry.Metallb.Crd.Peers.{match_peer}
use cloud_provider_cherry.Metallb.Crd.Peers.Spec.{serves}

spec_equal-add :
    (svc : Resource) (o : BgpPeer) (s : BgpPeerSpec)
    → peer_spec_equal (peer_add_service svc o).0.spec s ≡ peer_spec_equal o.spec s
unfolding peer_spec_equal peer_add_service
spec_equal-add svc o s = refl

peer_add_service-eq :
    (svc : Resource) (o : BgpPeer)
    → (peer_add_service svc o).0 ≡ record o {
      spec = record (o.spec) { node_selectors = (add_service svc o.spec.node_selectors).0 };
    }
unfolding peer_add_service
peer_add_service-eq svc o = refl

overwritten :
    (svc : Resource) (o n : BgpPeer)
    → ◌≡◌ {A = BgpPeer × Bool}
        (record (peer_add_service svc o).0 { spec = n.spec }, true)
        (record o { spec = n.spec }, true)
unfolding peer_add_service
overwritten svc o n = refl

true-ne-false : true ≡ false → ⊥
true-ne-false h = cc

changed-peer_add_service :
    (svc : Resource) (o : BgpPeer)
    → is_named svc ≡ true
    → (peer_add_service svc o).1 ≡ not (serves svc o)
unfolding peer_add_service
changed-peer_add_service svc o named = (add_service_lem svc o.spec.node_selectors named).0

-- The addresses and numbers that peerSpecEqual compares are the same.
abbrev pub Agrees : BgpPeerSpec → BgpPeerSpec → Type 0
Agrees p o =
    (p.my_asn ≡ o.my_asn)
    × (p.asn ≡ o.asn)
    × (p.address ≡ o.address)
    × (p.port ≡ o.port)
    × (p.hold_time ≡ o.hold_time)
    × (p.password ≡ o.password)
    × (p.router_id ≡ o.router_id)

spec_equal→Agrees : (p o : BgpPeerSpec) → peer_spec_equal p o ≡ true → Agrees p o
unfolding peer_spec_equal
spec_equal→Agrees p o h = ground (
  arith,
  eq_iff p.address o.address,
  eq_iff p.password o.password,
  eq_iff p.router_id o.router_id,
)

Agrees→spec_equal : (p o : BgpPeerSpec) → Agrees p o → peer_spec_equal p o ≡ true
unfolding peer_spec_equal
Agrees→spec_equal p o h = ground (
  arith,
  eq_iff p.address o.address,
  eq_iff p.password o.password,
  eq_iff p.router_id o.router_id,
)

-- Of a service with a name and a namespace:
-- A peer in the cluster keeps its metadata. If it agrees with the wanted peer in the numbers of both
-- sides, the address, the port, the hold time, the password and the router ID, its spec changes in
-- its selectors alone: it serves exactly the services that it served and the new one, and is patched
-- exactly if it did not serve the new one. If it does not agree, it is patched and its whole spec,
-- selectors included, becomes that of the wanted peer, so that it serves what those selectors name.
pub match_peer_lem :
    (svc s : Resource) (o n : BgpPeer)
    → is_named svc ≡ true
    → (Agrees o.spec n.spec
        × (selectors : List ApiSelector) × ((match_peer svc o n).0
            ≡ record o { spec = record (o.spec) { node_selectors = selectors } })
        × (contains s (services selectors) ≡ (s == svc || serves s o))
        × ((match_peer svc o n).1 ≡ not (serves svc o)))
      ⊎ ((¬ Agrees o.spec n.spec) × (match_peer svc o n ≡ (record o { spec = n.spec }, true)))
unfolding match_peer
match_peer_lem svc s o n named = elim (Bool-cases (peer_spec_equal o.spec n.spec)) [
  | inl e ↦ inl (
    spec_equal→Agrees o.spec n.spec e,
    (add_service svc o.spec.node_selectors).0,
    rw (spec_equal-add, e) (peer_add_service-eq svc o),
    contains-add_service svc s o.spec.node_selectors named,
    rw (spec_equal-add, e) (changed-peer_add_service svc o named),
  )
  | inr e ↦ inr (
    λ agrees. true-ne-false (sym (Agrees→spec_equal o.spec n.spec agrees) ∙ e),
    rw (spec_equal-add, e) (overwritten svc o n),
  )
]
