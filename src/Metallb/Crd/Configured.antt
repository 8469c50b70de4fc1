-- ===== src/Metallb/Crd/Configured.antt =====
-- CRDConfigurer as the configurer of the load balancer: metallb.go over crd.go.
use cloud_provider_cherry.Prelude.{
  ℕ, String, Bool, true, false, Option, none, some, List, [], ◌∷◌, ◌≡◌, refl, sym, ap, ◌∙◌, ◌==◌,
  string_eq, if◌then◌else◌, ltb, contains, Bool-cases, inl, inr,
}
use cloud_provider_cherry.Effect.{Result, ok, pure, wrapping, Result-cases, pure-eq-ok}
use cloud_provider_cherry.Metallb.Resource.{Resource, resource_eq}
use cloud_provider_cherry.Metallb.Services.{services, is_named}
use cloud_provider_cherry.Metallb.Api.{
  BgpPeerSpec, BgpPeer, IpAddressPoolSpec, IpAddressPool, BgpAdvertisementSpec, BgpAdvertisement,
  Kind, IsLawful, api_selector,
}
use cloud_provider_cherry.Metallb.Crd.{cpem_labels, peer_remove_service}
use cloud_provider_cherry.Metallb.Crd.Peers.{
  list_bgp_peers, update_or_delete_peer, remove_from_peers, remove_peers_by_service,
  update_peers_by_service,
}
use cloud_provider_cherry.Metallb.Crd.Peers.Spec.{remove_peers_by_service_gone}
use cloud_provider_cherry.Metallb.Crd.Pools.{add_address_pool, remove_address_pool}
use cloud_provider_cherry.Metallb.Crd.Pools.Laws.{IsQuiet, >>=-IsQuiet, remove_address_pool_lem}
use cloud_provider_cherry.Metallb.Lb.{Configurer, pool_name, remove_service}
use cloud_provider_cherry.Metallb.Lb.Laws.{pool_name_filled, remove_service-eq-ok}

-- Whether there is a peer, and it serves the service.
abbrev pub peer_serves : Resource → Option BgpPeer → Bool
peer_serves svc none = false
peer_serves svc (some o) = contains svc (services o.spec.node_selectors)

-- The methods of CRDConfigurer; Get and Update do nothing.
abbrev pub crd_configurer :
    {W : Type 0}
    → (String → ℕ)
    → (List BgpPeer → List BgpPeer)
    → String
    → Kind W BgpPeerSpec
    → Kind W BgpAdvertisementSpec
    → Kind W IpAddressPoolSpec
    → Configurer W
crd_configurer parse_duration range namespace peers advs pools = record {
  get = pure tt;
  update = pure tt;
  update_peers_by_service = update_peers_by_service peers parse_duration range namespace;
  remove_peers_by_service = remove_peers_by_service peers namespace;
  add_address_pool = λ pool svc. add_address_pool advs pools namespace (some pool) svc;
  remove_address_pool = remove_address_pool advs pools namespace;
}

module _ {W V : Type 0} (view : W → V) (peers : Kind W BgpPeerSpec)
    (patches : (o o' : BgpPeer) → IsQuiet view (peers.patch o o'))
    (deletes : (o : BgpPeer) → IsQuiet view (peers.delete o)) where
  update_or_delete_peer-IsQuiet :
      (svc : Resource) (o : BgpPeer) → IsQuiet view (update_or_delete_peer peers svc o)
  unfolding update_or_delete_peer
  update_or_delete_peer-IsQuiet svc o w = elim (Bool-cases (peer_remove_service svc o).1) [
    | inr e ↦ rw (update_or_delete_peer, e) refl
    | inl e ↦ elim (Bool-cases (ltb 0 (peer_remove_service svc o).2)) [
      | inl f ↦
          rw (update_or_delete_peer, e, f)
            (>>=-IsQuiet view
              (wrapping "unable to update BGPPeer" (peers.patch o (peer_remove_service svc o).0))
              (λ u. pure true) (patches o (peer_remove_service svc o).0) (λ u v. refl) w)
      | inr f ↦
          rw (update_or_delete_peer, e, f)
            (>>=-IsQuiet view
              (wrapping "unable to delete BGPPeer" (peers.delete (peer_remove_service svc o).0))
              (λ u. pure true) (deletes (peer_remove_service svc o).0) (λ u v. refl) w)
    ]
  ]

  remove_from_peers-IsQuiet :
      (svc : Resource) (os : List BgpPeer) (c : Bool)
      → IsQuiet view (remove_from_peers peers svc os c)
  unfolding remove_from_peers
  remove_from_peers-IsQuiet svc [] c w = refl
  remove_from_peers-IsQuiet svc (o ∷ os) c w =
      >>=-IsQuiet view (update_or_delete_peer peers svc o)
        (λ removed. remove_from_peers peers svc os (if c then true else removed))
        (update_or_delete_peer-IsQuiet svc o)
        (λ removed. remove_from_peers-IsQuiet svc os (if c then true else removed)) w

  remove_peers_by_service-IsQuiet :
      (namespace : String) (svc : Resource)
      → IsQuiet view (remove_peers_by_service peers namespace svc)
  unfolding remove_peers_by_service
  remove_peers_by_service-IsQuiet namespace svc w =
      elim (Result-cases (list_bgp_peers peers namespace w)) [
        | inl (x, e) ↦ rw (remove_peers_by_service, e) refl
        | inr (os, e) ↦
            rw (remove_peers_by_service, e)
              (>>=-IsQuiet view (remove_from_peers peers svc os false) (λ c. pure true)
                (remove_from_peers-IsQuiet svc os false) (λ c v. refl) w)
      ]

module _ {W : Type 0} (namespace : String) (peers : Kind W BgpPeerSpec)
    (find_peer : W → String → Option BgpPeer)
    (peer_law : IsLawful peers cpem_labels namespace find_peer) (advs : Kind W BgpAdvertisementSpec)
    (pools : Kind W IpAddressPoolSpec) (find_pool : W → String → Option IpAddressPool)
    (pool_law : IsLawful pools cpem_labels namespace find_pool)
    (adv_patches : (o o' : BgpAdvertisement) → IsQuiet find_pool (advs.patch o o'))
    (adv_deletes : (o : BgpAdvertisement) → IsQuiet find_pool (advs.delete o))
    (peer_patches : (o o' : BgpPeer) → IsQuiet find_pool (peers.patch o o'))
    (peer_deletes : (o : BgpPeer) → IsQuiet find_pool (peers.delete o))
    (parse_duration : String → ℕ) (range : List BgpPeer → List BgpPeer) where
  served_nowhere :
      (svc : Resource) (w w' : W) (removed : Bool) (n : String)
      → is_named svc ≡ true
      → remove_peers_by_service peers namespace svc w ≡ (ok removed, w')
      → peer_serves svc (find_peer w' n) ≡ false
  served_nowhere svc w w' removed n named gone = by_peer (find_peer w' n) refl
    where
      by_peer : (found : Option BgpPeer) → find_peer w' n ≡ found → peer_serves svc found ≡ false
      by_peer none e = refl
      by_peer (some o) e =
          remove_peers_by_service_gone namespace peers find_peer peer_law svc w w' removed n o named
            gone e

  -- Over a lawful API, in which calls on peers and advertisements leave the pools, of a service with
  -- a name and a namespace: when RemoveService of the load balancer over CRDConfigurer succeeds, no
  -- pool has the name of the service's pool, every other pool is as it was, and no peer of the
  -- cluster serves the service.
  pub removed_service_is_gone :
      (svc : Resource) (w w' : W) (n pool : String)
      → is_named svc ≡ true
      → remove_service (crd_configurer parse_duration range namespace peers advs pools) svc w
        ≡ (ok tt, w')
      → (find_pool w' pool ≡ (if pool_name svc == pool then none else find_pool w pool))
        × (peer_serves svc (find_peer w' n) ≡ false)
  removed_service_is_gone svc w w' n pool named h =
      let (w₁, w₂, w₃, w₄, removed, pool_gone, peers_gone, (got, updated, ended)) =
        remove_service-eq-ok (crd_configurer parse_duration range namespace peers advs pools) svc w
          w' h in
      let same : w₄ ≡ w' = elim (Bool-cases removed) [
        | inl e ↦ (pure-eq-ok (rw e at ended)).1
        | inr e ↦ (pure-eq-ok (rw e at ended)).1
      ] in
      (
        ap (λ (v : W). find_pool v pool) (sym same)
            ∙ ap (λ (p : Result Bool × W). find_pool p.1 pool) (sym peers_gone)
            ∙ ap (λ (view : String → Option IpAddressPool). view pool)
                (remove_peers_by_service-IsQuiet find_pool peers peer_patches peer_deletes namespace
                  svc w₃)
            ∙ ap (λ (v : W). find_pool v pool) (sym (pure-eq-ok updated).1)
            ∙ remove_address_pool_lem namespace advs pools find_pool pool_law adv_patches
                adv_deletes (pool_name svc) w₁ w₂ (pool_name_filled svc) pool_gone pool
            ∙ ap (λ (v : W). if pool_name svc == pool then none else find_pool v pool)
                (sym (pure-eq-ok got).1),
        ap (λ (v : W). peer_serves svc (find_peer v n)) (sym same)
            ∙ served_nowhere svc w₃ w₄ removed n named peers_gone,
      )
