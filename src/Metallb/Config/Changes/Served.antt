-- ===== src/Metallb/Config/Changes/Served.antt =====
-- Which services the peers of a configuration file serve, after AddPeerByService and after
-- RemovePeersByService.
use cloud_provider_cherry.Prelude.{
  ℕ, ◌+◌, Bool, true, false, not, ◌||◌, ◌&&◌, Option, none, some, List, [], ◌∷◌, ◌++◌, map, ◌≡◌,
  refl, sym, ap, ◌∙◌, ◌==◌, ◌!=◌, length, leb, nat_eq, contains, sort-perm, contains-perm, filter,
  Bool-cases, inl, inr, arith,
}
use cloud_provider_cherry.Metallb.Resource.{Resource, resource_eq, less}
use cloud_provider_cherry.Metallb.Services.{resource, is_named, services, remove_service}
use cloud_provider_cherry.Metallb.Services.Laws.{others, services-named}
use cloud_provider_cherry.Metallb.Services.Updates.{contains-add_service, remove_service_lem}
use cloud_provider_cherry.Metallb.Config.{NodeSelector, Peer, ConfigFile, node_selector}
use cloud_provider_cherry.Metallb.Config.Peers.{remove_from_peers, remove_peers_by_service}
use cloud_provider_cherry.Metallb.Config.Selectors.{
  Placed, put_back, placed_from, put_back_from, same_fields, equal_ignore_service, equal_by,
  peer_equal_ignore_service,
}
use cloud_provider_cherry.Metallb.Config.Changes.{serve_matching, serve_peer, add_peer_by_service}

abbrev pub serves : Peer → Resource → Bool
serves p svc = contains svc (services p.node_selectors)

-- Some peer serves the service.
abbrev pub any_serves : List Peer → Resource → Bool
any_serves [] svc = false
any_serves (p ∷ ps) svc = serves p svc || any_serves ps svc

put_back-resource :
    (n : NodeSelector) (changed : Option NodeSelector) → resource (put_back n changed) ≡ resource n
put_back-resource n none = refl
put_back-resource n (some changed) = refl

put_back_from-services :
    (i : ℕ) (changed : List Placed) (ns : List NodeSelector)
    → services (put_back_from i changed ns) ≡ services ns
unfolding put_back_from
put_back_from-services i changed ns =
    services-named (put_back_from i changed ns)
    ∙ ap (filter is_named) (resources i ns)
    ∙ sym (services-named ns)
  where
    resources :
        (i : ℕ) (ns : List NodeSelector)
        → map resource (put_back_from i changed ns) ≡ map resource ns
    resources i [] = refl
    resources i (n ∷ ns) = simp (put_back-resource, resources (i + 1) ns)

-- The comparison leaves the services of both sides alone.
equal_ignore_service-services :
    (ns os : List NodeSelector)
    → (services (equal_ignore_service ns os).1 ≡ services ns)
      × (services (equal_ignore_service ns os).2 ≡ services os)
unfolding equal_ignore_service
equal_ignore_service-services ns os =
    elim (Bool-cases (length (placed_from 0 ns) != length (placed_from 0 os))) [
      | inl e ↦ rw e (refl, refl)
      | inr e ↦ rw e (put_back_from-services 0 _ ns, put_back_from-services 0 _ os)
    ]

compared-services :
    (p o : Peer)
    → (services (peer_equal_ignore_service p o).1.node_selectors ≡ services p.node_selectors)
      × (services (peer_equal_ignore_service p o).2.node_selectors ≡ services o.node_selectors)
unfolding peer_equal_ignore_service equal_by
compared-services p o = elim (Bool-cases (same_fields p o)) [
  | inl e ↦ rw e (equal_ignore_service-services p.node_selectors o.node_selectors)
  | inr e ↦ rw e (refl, refl)
]

module _ (svc : Resource) (named : is_named svc ≡ true) (s : Resource) where
  contains-remove_service :
      (ns : List NodeSelector)
      → contains s (services (remove_service svc ns).0)
        ≡ (not (s == svc) && contains s (services ns))
  contains-remove_service ns =
      rw ((remove_service_lem svc ns named).2)
        (contains-perm s (sort-perm less (others svc (services ns))) ∙ of_others (services ns))
    where
      of_others :
          (rs : List Resource) → contains s (others svc rs) ≡ (not (s == svc) && contains s rs)
      of_others [] = ground arith
      of_others (r ∷ rs) = ground (
        arith,
        of_others rs,
        resource_eq.beq_iff svc r,
        resource_eq.beq_iff s r,
        resource_eq.beq_iff s svc,
      )

  any_serves-append :
      (ps qs : List Peer) → any_serves (ps ++ qs) s ≡ (any_serves ps s || any_serves qs s)
  any_serves-append [] qs = refl
  any_serves-append (p ∷ ps) qs = ground (arith, any_serves-append ps qs)

  serve_matching-served :
      (add : Peer) (ps : List Peer)
      → (any_serves (serve_matching svc add ps).1 s
          ≡ ((serve_matching svc add ps).0 && s == svc || any_serves ps s))
        × (services (serve_matching svc add ps).2.node_selectors ≡ services add.node_selectors)
  unfolding serve_matching
  serve_matching-served add [] = (refl, refl)
  serve_matching-served add (p ∷ ps) =
      let compared = peer_equal_ignore_service p add in
      let (mine, theirs) = compared-services p add in
      let (rest, added) = serve_matching-served compared.2 ps in
      elim (Bool-cases compared.0) [
        | inl e ↦
            rw (e, contains-add_service svc s _ named, mine, rest) (ground arith, added ∙ theirs)
        | inr e ↦ rw (e, mine, rest) (ground arith, added ∙ theirs)
      ]

  pub serve_peer-served :
      (add : Peer) (ps : List Peer)
      → services add.node_selectors ≡ []
      → any_serves (serve_peer svc add ps) s ≡ (s == svc || any_serves ps s)
  unfolding serve_peer
  serve_peer-served add ps h =
      let (rest, added) = serve_matching-served add ps in
      elim (Bool-cases (serve_matching svc add ps).0) [
        | inl e ↦ rw (e, rest, e) refl
        | inr e ↦
            rw (e, any_serves-append, contains-add_service svc s _ named, added, h, rest, e)
              (ground arith)
      ]

  none_left :
      (rs : List Resource) (changed : Bool) (size : ℕ)
      → size ≡ length rs
      → (not changed || leb 1 size) ≡ false
      → contains s rs ≡ false
  none_left [] changed size h e = refl
  none_left (r ∷ rs) changed size h e = absurd (ground arith)

  remove_from_peers-served :
      (ps : List Peer)
      → any_serves (remove_from_peers svc ps).0 s ≡ (not (s == svc) && any_serves ps s)
  unfolding remove_from_peers
  remove_from_peers-served [] = ground arith
  remove_from_peers-served (p ∷ ps) =
      let gone = contains-remove_service p.node_selectors in
      let left = (remove_service_lem svc p.node_selectors named).1 in
      let dropped =
        none_left (services (remove_service svc p.node_selectors).0)
          (remove_service svc p.node_selectors).1 (remove_service svc p.node_selectors).2 left in
      elim (Bool-cases (
        not (remove_service svc p.node_selectors).1
        || leb 1 (remove_service svc p.node_selectors).2)) [
          | inl e ↦ rw (e, gone, remove_from_peers-served ps) (ground arith)
          | inr e ↦ rw (e, remove_from_peers-served ps) (ground (arith, gone, dropped e))
        ]

-- Without a peer AddPeerByService changes nothing and reports no change. With a peer that serves no
-- service yet, and a service with a name and a namespace: afterwards exactly the services that were
-- served before and the added one are served, the pools and communities are as they were, and a
-- change is reported, whether anything changed or not.
pub add_peer_by_service_lem :
    (svc : Resource) (add : Peer) (cfg : ConfigFile) (s : Resource)
    → is_named svc ≡ true
    → services add.node_selectors ≡ []
    → let after = (add_peer_by_service (some add) svc cfg).0 in
      (any_serves after.peers s ≡ (s == svc || any_serves cfg.peers s))
      × (after.pools ≡ cfg.pools)
      × (after.bgp_communities ≡ cfg.bgp_communities)
      × ((add_peer_by_service (some add) svc cfg).1 ≡ true)
      × (add_peer_by_service none svc cfg ≡ (cfg, false))
unfolding add_peer_by_service
add_peer_by_service_lem svc add cfg s named h =
    (serve_peer-served svc named s add cfg.peers h, refl, refl, refl, refl)

-- Of a service with a name and a namespace: after RemovePeersByService exactly the other services
-- that were served before are served.
pub remove_peers_by_service-served :
    (svc : Resource) (cfg : ConfigFile) (s : Resource)
    → is_named svc ≡ true
    → any_serves (remove_peers_by_service svc cfg).0.peers s
      ≡ (not (s == svc) && any_serves cfg.peers s)
unfolding remove_peers_by_service
remove_peers_by_service-served svc cfg s named = remove_from_peers-served svc named s cfg.peers
