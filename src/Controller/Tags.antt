-- ===== src/Controller/Tags.antt =====
-- The tags of cherry/loadbalancers.go, by which the reservations of services are told apart.
use cloud_provider_cherry.Prelude.{
  String, true, some, List, [], ◌∷◌, ◌++◌, ◌≡◌, refl, sym, ap, ◌∙◌, ◌==◌, string_eq, Labels, lookup,
  filter, all, not, arith, Bool-cases, Option-cases, inl, inr, some_inj, beq_refl,
}
use cloud_provider_cherry.Reservations.{
  IpAddress, has_all_tags, is_candidate, ip_reservations_by_all_tags, first,
  ip_reservation_by_all_tags,
}
use cloud_provider_cherry.LoadBalancers.{Service}
use cloud_provider_cherry.Controller.{
  LoadBalancers, service_rep, service_tag, service_tags, reservation_of,
}

-- The reservation that is found is a candidate.
found-is_candidate :
    (targets : Labels) (ips : List IpAddress) {r : IpAddress}
    → ip_reservation_by_all_tags targets ips ≡ some r
    → is_candidate targets r ≡ true
unfolding ip_reservation_by_all_tags ip_reservations_by_all_tags first
found-is_candidate targets [] {r} h = cc
found-is_candidate targets (ip ∷ ips) {r} h = elim (Bool-cases (is_candidate targets ip)) [
  | inl e ↦
      rw
        (some_inj
          (rw (ip_reservation_by_all_tags, ip_reservations_by_all_tags, filter, e, first) at h))
        at e
  | inr e ↦
      found-is_candidate targets ips
        (rw (ip_reservation_by_all_tags, ip_reservations_by_all_tags, filter, e) at h)
]

-- A candidate has the first of the wanted tags, with its value.
candidate_tag :
    (k v : String) (targets : Labels) (r : IpAddress) (tags : Labels)
    → r.tags ≡ some tags
    → is_candidate ((k, v) ∷ targets) r ≡ true
    → lookup k tags ≡ some v
unfolding is_candidate has_all_tags
candidate_tag k v targets r tags e h = elim (Option-cases (lookup k tags)) [
  | inl f ↦ let impossible = rw (is_candidate, e, has_all_tags, f) at h in cc
  | inr (value, f) ↦ elim (Bool-cases (v == value)) [
    | inl g ↦ f ∙ ap (λ (t : String). some t) (sym ((string_eq.beq_iff v value).0 g))
    | inr g ↦ let impossible = rw (is_candidate, e, has_all_tags, f, g) at h in cc
  ]
]

tags_of_candidate :
    (targets : Labels) (r : IpAddress)
    → is_candidate targets r ≡ true
    → (tags : Labels) × (r.tags ≡ some tags)
unfolding is_candidate
tags_of_candidate targets r h = elim (Option-cases r.tags) [
  | inl e ↦ let impossible = rw (is_candidate, e) at h in cc
  | inr found ↦ found
]

-- Behind addresses that are no candidates, a candidate is found.
found_behind :
    (targets : Labels) (ips others : List IpAddress) (r : IpAddress)
    → all (λ (ip : IpAddress). not (is_candidate targets ip)) ips ≡ true
    → is_candidate targets r ≡ true
    → ip_reservation_by_all_tags targets (ips ++ r ∷ others) ≡ some r
unfolding ip_reservation_by_all_tags ip_reservations_by_all_tags first
found_behind targets [] others r h c =
    rw (ip_reservation_by_all_tags, ip_reservations_by_all_tags, c, first) refl
found_behind targets (ip ∷ ips) others r h c = ground (arith, found_behind targets ips others r)

module _ {W : Type 0} (l : LoadBalancers W) where
  service_candidate :
      (svc : Service) (ips : List IpAddress) (r : IpAddress) (tags : Labels)
      → r.tags ≡ some tags
      → reservation_of l svc ips ≡ some r
      → lookup "service" tags ≡ some (l.service_hash (service_rep (some svc)))
  unfolding service_tags service_tag
  service_candidate svc ips r tags e h =
      candidate_tag "service" (l.service_hash (service_rep (some svc))) _ r tags e
        (found-is_candidate (service_tags l svc) ips h)

  -- Two services for which the same reservation is found have the same hash of their namespace and
  -- name: the reservation of a service is never taken, or deleted, for a service of another hash.
  pub reservations_of_one_service :
      (svc svc' : Service) (ips ips' : List IpAddress) (r : IpAddress)
      → reservation_of l svc ips ≡ some r
      → reservation_of l svc' ips' ≡ some r
      → l.service_hash (service_rep (some svc)) ≡ l.service_hash (service_rep (some svc'))
  reservations_of_one_service svc svc' ips ips' r h h' =
      let (tags, e) =
        tags_of_candidate (service_tags l svc) r (found-is_candidate (service_tags l svc) ips h) in
      some_inj
        (sym (service_candidate svc ips r tags e h) ∙ service_candidate svc' ips' r tags e h')

  own_tags :
      (svc : Service) (r : IpAddress)
      → r.tags ≡ some (service_tags l svc)
      → is_candidate (service_tags l svc) r ≡ true
  unfolding is_candidate has_all_tags service_tags service_tag lookup
  own_tags svc r e =
      rw
        (
          is_candidate,
          e,
          has_all_tags,
          beq_refl (l.service_hash (service_rep (some svc))),
          beq_refl l.cluster_id,
        )
        refl

  -- A reservation with the tags that addService gives to a new one is the reservation that is found
  -- for the service, wherever it is listed, unless an address before it carries the tags too.
  pub created_is_found :
      (svc : Service) (ips others : List IpAddress) (r : IpAddress)
      → r.tags ≡ some (service_tags l svc)
      → all (λ (ip : IpAddress). not (is_candidate (service_tags l svc) ip)) ips ≡ true
      → reservation_of l svc (ips ++ r ∷ others) ≡ some r
  created_is_found svc ips others r e h =
      found_behind (service_tags l svc) ips others r h (own_tags svc r e)
