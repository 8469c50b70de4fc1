-- ===== src/Metallb/Crd/Peers/Leak.antt =====
-- The first service of a cluster: with no peer in the cluster, UpdatePeersByService creates the
-- wanted peers as they are, and does not put the service among their selectors as it does with the
-- peers that it adds later.
use mathlib.Core.Path.{subst}
use mathlib.Core.Option.{none-ne-some, some-ne-none}
use cloud_provider_cherry.Prelude.{
  ℕ, String, ◌≡◌, refl, sym, ap, ◌∙◌, Bool, true, false, Option, none, some, List, [], ◌∷◌, map,
  filter, ◌≢◌, ◌==◌, beq_refl, string_eq, Bool-cases, inl, inr, contains, some_inj, lookup, All,
  All-map,
}
use cloud_provider_cherry.Effect.{Result, ok, pure, wrapping, ◌>>◌, >>=-eq-ok, wrapping-eq-ok}
use cloud_provider_cherry.Metallb.Resource.{Resource, resource_eq}
use cloud_provider_cherry.Metallb.Services.{services, is_named, resource}
use cloud_provider_cherry.Metallb.Services.Laws.{services-named}
use cloud_provider_cherry.Metallb.Services.Updates.{remove_service_lem}
use cloud_provider_cherry.Metallb.Config.{NodeSelector, node_selector, Peer}
use cloud_provider_cherry.Metallb.Api.{
  BgpPeerSpec, BgpPeer, Kind, IsSelected, IsLawful, api_selector,
}
use cloud_provider_cherry.Metallb.Crd.{
  cpem_labels, convert_selector, convert_to_bgp_peer, peer_remove_service,
}
use cloud_provider_cherry.Metallb.Crd.Peers.{
  create_peers, update_peers_by_service, remove_peers_by_service,
}
use cloud_provider_cherry.Metallb.Crd.Peers.Spec.{
  serves, without_service, lacking, remove_peers_by_service_lem,
}

resources-convert :
    (sels : List NodeSelector) → map resource (map convert_selector sels) ≡ map resource sels
unfolding convert_selector
resources-convert [] = refl
resources-convert (s ∷ sels) = ap (λ l. resource s ∷ l) (resources-convert sels)

-- A wanted peer serves what its node selectors name.
serves-convert :
    (svc : Resource) (parse_duration : String → ℕ) (add : Peer) (namespace : String)
    → serves svc (convert_to_bgp_peer parse_duration add namespace)
      ≡ contains svc (services add.node_selectors)
unfolding convert_to_bgp_peer
serves-convert svc parse_duration add namespace = ap (contains svc) (
    services-named (map convert_selector add.node_selectors)
    ∙ ap (filter is_named) (resources-convert add.node_selectors)
    ∙ sym (services-named add.node_selectors))

-- A peer that does not serve the service is left alone by its removal.
without_service_absent :
    (svc : Resource) (o : BgpPeer)
    → is_named svc ≡ true
    → serves svc o ≡ false
    → without_service svc o ≡ some o
unfolding without_service peer_remove_service
without_service_absent svc o named h =
    rw ((remove_service_lem svc o.spec.node_selectors named).0, h)

lacking_absent :
    (svc : Resource) (p : Option BgpPeer)
    → is_named svc ≡ true
    → ((o : BgpPeer) → p ≡ some o → serves svc o ≡ false)
    → lacking svc p ≡ p
unfolding lacking
lacking_absent svc none named h = refl
lacking_absent svc (some o) named h = without_service_absent svc o named (h o refl)

module _ {W : Type 0} (namespace : String) (peers : Kind W BgpPeerSpec)
    (find : W → String → Option BgpPeer) (law : IsLawful peers cpem_labels namespace find)
    (P : BgpPeer → Type 0) where
  abbrev Own : BgpPeer → Type 0
  Own = IsSelected cpem_labels namespace

  -- A property of all peers in the cluster.
  abbrev Holds : W → Type 0
  Holds w = (n : String) (o : BgpPeer) → find w n ≡ some o → P o

  create-Holds :
      (c : BgpPeer) (w w' : W) → Own c → P c → Holds w → peers.create c w ≡ (ok tt, w') → Holds w'
  create-Holds c w w' own p holds h n o found = elim (Bool-cases (c.name == n)) [
    | inl e ↦
        let now : some c ≡ some o = rw e at (sym (law.find-create c w w' own h n) ∙ found) in
        subst P (some_inj now) p
    | inr e ↦ holds n o (rw e at (sym (law.find-create c w w' own h n) ∙ found))
  ]

  create_peers-Holds :
      (news : List BgpPeer) (w w' : W)
      → All Own news
      → All P news
      → Holds w
      → create_peers peers news w ≡ (ok tt, w')
      → Holds w'
  unfolding create_peers
  create_peers-Holds [] w w' own p holds h =
      λ n o found. holds n o (ap (λ (p : Result Unit × W). find p.1 n) h ∙ found)
  create_peers-Holds (c ∷ cs) w w' own p holds h =
      let (_, w₁, here, rest) =
        >>=-eq-ok (wrapping "unable to add BGPPeer" (peers.create c)) _ w h in
      create_peers-Holds cs w₁ w' own.1 p.1
        (create-Holds c w w₁ own.0 p.0 holds
          (wrapping-eq-ok "unable to add BGPPeer" (peers.create c) w here))
        rest

  create-keeps :
      (c : BgpPeer) (w w' : W) (n : String)
      → Own c
      → find w n ≢ none
      → peers.create c w ≡ (ok tt, w')
      → find w' n ≢ none
  create-keeps c w w' n own there h = elim (Bool-cases (c.name == n)) [
    | inl e ↦ λ gone. some-ne-none c (sym (rw e at (law.find-create c w w' own h n)) ∙ gone)
    | inr e ↦ λ gone. there (sym (rw e at (law.find-create c w w' own h n)) ∙ gone)
  ]

  create_peers-keeps :
      (news : List BgpPeer) (w w' : W) (n : String)
      → All Own news
      → find w n ≢ none
      → create_peers peers news w ≡ (ok tt, w')
      → find w' n ≢ none
  unfolding create_peers
  create_peers-keeps [] w w' n own there h =
      λ gone. there (ap (λ (p : Result Unit × W). find p.1 n) h ∙ gone)
  create_peers-keeps (c ∷ cs) w w' n own there h =
      let (_, w₁, here, rest) =
        >>=-eq-ok (wrapping "unable to add BGPPeer" (peers.create c)) _ w h in
      create_peers-keeps cs w₁ w' n own.1
        (create-keeps c w w₁ n own.0 there
          (wrapping-eq-ok "unable to add BGPPeer" (peers.create c) w here))
        rest

  create_peers-made :
      (news : List BgpPeer) (w w' : W)
      → All Own news
      → create_peers peers news w ≡ (ok tt, w')
      → All (λ c. find w' c.name ≢ none) news
  unfolding create_peers
  create_peers-made [] w w' own h = tt
  create_peers-made (c ∷ cs) w w' own h =
      let (_, w₁, here, rest) =
        >>=-eq-ok (wrapping "unable to add BGPPeer" (peers.create c)) _ w h in
      let made = wrapping-eq-ok "unable to add BGPPeer" (peers.create c) w here in
      (
        create_peers-keeps cs w₁ w' c.name own.1
            (λ gone.
              some-ne-none c
                (sym (rw beq_refl at (law.find-create c w w₁ own.0 made c.name)) ∙ gone))
            rest,
        create_peers-made cs w₁ w' own.1 rest,
      )

module _ {W : Type 0} (namespace : String) (peers : Kind W BgpPeerSpec)
    (find : W → String → Option BgpPeer) (law : IsLawful peers cpem_labels namespace find)
    (parse_duration : String → ℕ) (range : List BgpPeer → List BgpPeer) where
  abbrev pub wanted : List Peer → List BgpPeer
  wanted adds = map (λ add. convert_to_bgp_peer parse_duration add namespace) adds

  -- With no peer in the cluster, the wanted peers are created as they are.
  update_empty :
      (adds : List Peer) (svc : Resource) (w w₁ : W) (b : Bool)
      → peers.list cpem_labels namespace w ≡ ok []
      → update_peers_by_service peers parse_duration range namespace adds svc w ≡ (ok b, w₁)
      → create_peers peers (wanted adds) w ≡ (ok tt, w₁)
  unfolding update_peers_by_service
  update_empty adds svc w w₁ b empty h =
      let chain : (do create_peers peers (wanted adds); pure true) w ≡ (ok b, w₁) =
        rw (empty, update_peers_by_service) at h in
      let (_, w', made, end) =
        >>=-eq-ok (create_peers peers (wanted adds)) (λ _. pure true) w chain in
      made ∙ ap (λ (p : Result Bool × W). (ok tt, p.1)) end

  converted_own :
      (add : Peer)
      → IsSelected cpem_labels namespace (convert_to_bgp_peer parse_duration add namespace)
  unfolding convert_to_bgp_peer lookup
  converted_own add = (refl, (refl, tt))

  wanted_own : (adds : List Peer) → All (IsSelected cpem_labels namespace) (wanted adds)
  wanted_own [] = tt
  wanted_own (add ∷ adds) = (converted_own add, wanted_own adds)

  wanted_unserved :
      (adds : List Peer) (svc : Resource)
      → All (λ add. contains svc (services add.node_selectors) ≡ false) adds
      → All (λ o. serves svc o ≡ false) (wanted adds)
  wanted_unserved [] svc h = tt
  wanted_unserved (add ∷ adds) svc h =
      (serves-convert svc parse_duration add namespace ∙ h.0, wanted_unserved adds svc h.1)

  -- Over a lawful API, of a service with a name and a namespace:
  -- A service that is added to a cluster with no peers, and then removed: if no wanted peer names
  -- the service itself, then none of the peers that were created for it is deleted or changed by
  -- the removal, and each of them is still there.
  pub first_service_leaks :
      (adds : List Peer) (svc : Resource) (w w₁ w₂ : W) (b c : Bool)
      → is_named svc ≡ true
      → All (λ add. contains svc (services add.node_selectors) ≡ false) adds
      → peers.list cpem_labels namespace w ≡ ok []
      → update_peers_by_service peers parse_duration range namespace adds svc w ≡ (ok b, w₁)
      → remove_peers_by_service peers namespace svc w₁ ≡ (ok c, w₂)
      → ((n : String) → find w₂ n ≡ find w₁ n) × All (λ add. find w₂ add.name ≢ none) (wanted adds)
  first_service_leaks adds svc w w₁ w₂ b c named unserved empty updated removed =
      let made = update_empty adds svc w w₁ b empty updated in
      let unserving =
        create_peers-Holds namespace peers find law (λ o. serves svc o ≡ false) (wanted adds) w w₁
          (wanted_own adds) (wanted_unserved adds svc unserved)
          (λ n o found. absurd (none-ne-some o (sym (law.find-list w [] empty n) ∙ found))) made in
      let same : (n : String) → find w₂ n ≡ find w₁ n = λ n.
        (remove_peers_by_service_lem namespace peers find law svc w₁ w₂ c removed).1 n
        ∙ lacking_absent svc (find w₁ n) named (unserving n) in
      (
        same,
        All-map (λ o there. λ gone. there (sym (same o.name) ∙ gone)) (wanted adds)
            (create_peers-made namespace peers find law (λ _. Unit) (wanted adds) w w₁
              (wanted_own adds) made),
      )
