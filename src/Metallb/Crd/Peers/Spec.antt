-- ===== src/Metallb/Crd/Peers/Spec.antt =====
-- What RemovePeersByService makes of the peers in the cluster.
use cloud_provider_cherry.Prelude.{
  String, ◌≡◌, refl, sym, ap, ◌∙◌, Bool, true, false, Option, none, some, List, [], ◌∷◌, ◌==◌,
  string_eq, nat_eq, if◌then◌else◌, ltb, beq_refl, Bool-cases, some_inj, inl, inr, eq_iff, contains,
}
use mathlib.Core.Option.{none-ne-some}
use cloud_provider_cherry.Effect.{
  wrap-eq-ok, Result, ok, err, wrap, Action, pure, wrapping, ◌>>◌, then_do, >>=-eq-ok,
}
use cloud_provider_cherry.Metallb.Resource.{Resource, resource_eq}
use cloud_provider_cherry.Metallb.Services.{services, is_named}
use cloud_provider_cherry.Metallb.Services.Updates.{remove_service_lem, contains-remove_service}
use cloud_provider_cherry.Metallb.Api.{
  BgpPeerSpec, BgpPeer, Kind, named_object, IsLawful, HasDistinctNames, api_selector,
}
use cloud_provider_cherry.Metallb.Crd.{cpem_labels, peer_remove_service}
use cloud_provider_cherry.Metallb.Crd.Peers.{
  list_bgp_peers, update_or_delete_peer, remove_from_peers, remove_peers_by_service,
}

-- A peer without one of its services: it is gone if it has no service left.
unfoldable pub without_service : Resource → BgpPeer → Option BgpPeer
without_service svc o =
    let (o', found, size) = peer_remove_service svc o in
    if found then (if ltb 0 size then some o' else none) else some o

-- What stands under a name once its peer, if there is one, has lost the service.
unfoldable pub lacking : Resource → Option BgpPeer → Option BgpPeer
lacking svc none = none
lacking svc (some o) = without_service svc o

-- A listed peer loses the service; what is not listed stays.
abbrev after : Resource → Option BgpPeer → Option BgpPeer → Option BgpPeer
after svc none old = old
after svc (some o) old = without_service svc o

after_self : (svc : Resource) (o : Option BgpPeer) → after svc o o ≡ lacking svc o
unfolding lacking
after_self svc none = refl
after_self svc (some o) = refl

name-peer_remove_service :
    (svc : Resource) (o : BgpPeer) → (peer_remove_service svc o).0.name ≡ o.name
unfolding peer_remove_service
name-peer_remove_service svc o = refl

meta-peer_remove_service :
    (svc : Resource) (o : BgpPeer)
    → ((peer_remove_service svc o).0.namespace ≡ o.namespace)
      × ((peer_remove_service svc o).0.labels ≡ o.labels)
unfolding peer_remove_service
meta-peer_remove_service svc o = (refl, refl)

abbrev pub serves : Resource → BgpPeer → Bool
serves svc o = contains svc (services o.spec.node_selectors)

without_service-lacks :
    (svc : Resource) (p o : BgpPeer)
    → is_named svc ≡ true
    → without_service svc p ≡ some o
    → serves svc o ≡ false
unfolding without_service peer_remove_service
without_service-lacks svc p o named h =
    let removed = remove_service_lem svc p.spec.node_selectors named in
    elim (Bool-cases (peer_remove_service svc p).1) [
      | inr e ↦ ap (serves svc) (sym (some_inj (rw e at h))) ∙ sym removed.0 ∙ e
      | inl e ↦ elim (Bool-cases (ltb 0 (peer_remove_service svc p).2)) [
        | inl e' ↦
            ap (serves svc) (sym (some_inj (rw (e, e') at h)))
            ∙ contains-remove_service svc p.spec.node_selectors named
        | inr e' ↦ absurd (none-ne-some o (rw (e, e') at h))
      ]
    ]

lacking-lacks :
    (svc : Resource) (p : Option BgpPeer) (o : BgpPeer)
    → is_named svc ≡ true
    → lacking svc p ≡ some o
    → serves svc o ≡ false
unfolding lacking
lacking-lacks svc none o named h = absurd (none-ne-some o h)
lacking-lacks svc (some p) o named h = without_service-lacks svc p o named h

-- A wrapped call in a chain that succeeds has succeeded.
pub call-eq-ok :
    {W : Type 0} (text : String) (m : Action W Unit) (result b : Bool) (w w' : W)
    → (do wrapping text m; pure result) w ≡ (ok b, w')
    → m w ≡ (ok tt, w')
call-eq-ok {W} text m result b w w' h = split (m w) refl h
  where
    split :
        (r : Result Unit × W)
        → m w ≡ r
        → then_do (wrap text r.0) (λ _. pure result) r.1 ≡ (ok b, w')
        → m w ≡ (ok tt, w')
    split (ok tt, w₁) e h = cc
    split (err x, w₁) e h = cc

module _ {W : Type 0} (namespace : String) (peers : Kind W BgpPeerSpec)
    (find : W → String → Option BgpPeer) (law : IsLawful peers cpem_labels namespace find)
    (svc : Resource) where
  find_self :
      (o : BgpPeer) (w : W)
      → find w o.name ≡ some o
      → (n : String) → find w n ≡ (if o.name == n then some o else find w n)
  find_self o w here n = elim (Bool-cases (o.name == n)) [
    | inl e ↦ rw e (ap (find w) (sym ((eq_iff o.name n).0 e)) ∙ here)
    | inr e ↦ rw e
  ]

  update_or_delete_lem :
      (o : BgpPeer) (w w' : W) (b : Bool)
      → find w o.name ≡ some o
      → update_or_delete_peer peers svc o w ≡ (ok b, w')
      → (n : String) → find w' n ≡ (if o.name == n then without_service svc o else find w n)
  unfolding update_or_delete_peer without_service
  update_or_delete_lem o w w' b here h n = elim (Bool-cases (peer_remove_service svc o).1) [
    | inr e ↦
        let same : w ≡ w' = ap (λ (p : Result Bool × W). p.1) (rw e at h) in
        rw (e, ← same) (find_self o w here n)
    | inl e ↦ elim (Bool-cases (ltb 0 (peer_remove_service svc o).2)) [
      | inl e' ↦
          rw (e, e')
            (law.find-patch o (peer_remove_service svc o).0 w w' (name-peer_remove_service svc o)
              (meta-peer_remove_service svc o).0 (meta-peer_remove_service svc o).1 here
              (call-eq-ok "unable to update BGPPeer" (peers.patch o (peer_remove_service svc o).0)
                true b w w' (rw (e, e') at h))
              n)
      | inr e' ↦
          rw (e, e')
            (rw name-peer_remove_service at (
              law.find-delete (peer_remove_service svc o).0 w w'
                (call-eq-ok "unable to delete BGPPeer" (peers.delete (peer_remove_service svc o).0)
                  true b w w' (rw (e, e') at h))
                n))
    ]
  ]

  remove_from_peers_lem :
      (os : List BgpPeer) (c b : Bool) (w w' : W)
      → HasDistinctNames os
      → ((n : String) (o : BgpPeer) → named_object n os ≡ some o → find w n ≡ some o)
      → remove_from_peers peers svc os c w ≡ (ok b, w')
      → (n : String) → find w' n ≡ after svc (named_object n os) (find w n)
  unfolding remove_from_peers
  remove_from_peers_lem [] c b w w' d here h n = ap (λ (p : Result Bool × W). find p.1 n) (sym h)
  remove_from_peers_lem (o ∷ os) c b w w' d here h n =
      let (removed, w₁, done, rest) = >>=-eq-ok (update_or_delete_peer peers svc o) _ w h in
      let here_o : find w o.name ≡ some o = here o.name o (rw beq_refl) in
      let step = update_or_delete_lem o w w₁ removed here_o done in
      let still : (m : String) (p : BgpPeer) → named_object m os ≡ some p → find w₁ m ≡ some p =
        λ m p e. elim (Bool-cases (o.name == m)) [
          | inl q ↦ absurd (cc (rw ((eq_iff o.name m).0 q) at d.0))
          | inr q ↦ step m ∙ rw q (here m p (rw q e))
        ] in
      let later = remove_from_peers_lem os _ b w₁ w' d.1 still rest n in
      elim (Bool-cases (o.name == n)) [
        | inl q ↦
            let gone : named_object n os ≡ none =
              ap (λ m. named_object m os) (sym ((eq_iff o.name n).0 q)) ∙ d.0 in
            rw q (later ∙ rw gone (step n ∙ rw q))
        | inr q ↦ rw q (later ∙ ap (after svc (named_object n os)) (step n ∙ rw q))
      ]

  list-eq-ok :
      (w : W) (os : List BgpPeer)
      → list_bgp_peers peers namespace w ≡ ok os
      → peers.list cpem_labels namespace w ≡ ok os
  unfolding list_bgp_peers
  list-eq-ok w os h =
      wrap-eq-ok "unable to retrieve a list of BGPPeers" (peers.list cpem_labels namespace w) h

  -- Over a lawful API:
  -- When RemovePeersByService succeeds it returns true, and every peer of the cluster is as it was
  -- without the service: patched if it has other services, deleted if it has none left, untouched
  -- if it did not have the service.
  pub remove_peers_by_service_lem :
      (w w' : W) (b : Bool)
      → remove_peers_by_service peers namespace svc w ≡ (ok b, w')
      → (b ≡ true) × ((n : String) → find w' n ≡ lacking svc (find w n))
  unfolding remove_peers_by_service
  remove_peers_by_service_lem w w' b h = go (list_bgp_peers peers namespace w) refl h
    where
      go :
          (r : Result (List BgpPeer))
          → list_bgp_peers peers namespace w ≡ r
          → (elim r [
            | err e ↦ (err e, w)
            | ok olds ↦ (do remove_from_peers peers svc olds false; pure true) w
          ])
            ≡ (ok b, w')
          → (b ≡ true) × ((n : String) → find w' n ≡ lacking svc (find w n))
      go (err e) l h = absurd (cc)
      go (ok os) l h =
          let (c, w₁, removed, end) = >>=-eq-ok (remove_from_peers peers svc os false) _ w h in
          let shown = law.find-list w os (list-eq-ok w os l) in
          (
            cc,
            λ n.
                ap (λ (p : Result Bool × W). find p.1 n) (sym end)
                ∙ remove_from_peers_lem os false c w w₁ (law.list_names w os (list-eq-ok w os l))
                    (λ m p e. shown m ∙ e) removed n
                ∙ ap (λ p. after svc p (find w n)) (sym (shown n))
                ∙ after_self svc (find w n),
          )

  -- Over a lawful API, of a service with a name and a namespace:
  -- When RemovePeersByService succeeds, no peer in the cluster serves the service any more.
  pub remove_peers_by_service_gone :
      (w w' : W) (b : Bool) (n : String) (o : BgpPeer)
      → is_named svc ≡ true
      → remove_peers_by_service peers namespace svc w ≡ (ok b, w')
      → find w' n ≡ some o
      → contains svc (services o.spec.node_selectors) ≡ false
  remove_peers_by_service_gone w w' b n o named h found =
      lacking-lacks svc (find w n) o named
        (sym ((remove_peers_by_service_lem w w' b h).1 n) ∙ found)
