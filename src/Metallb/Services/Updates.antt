-- ===== src/Metallb/Services/Updates.antt =====
-- What AddService and RemoveService do to the services of a peer, and to its selectors with neither
-- label of a service.
use mathlib.Core.List.{append-nil, Perm}
use mathlib.Core.List.Perm
use cloud_provider_cherry.Prelude.{
  ◌≡◌, refl, sym, ap, ◌∙◌, true, false, not, ◌||◌, List, [], ◌∷◌, map, ◌==◌, beq_refl, string_eq,
  if◌then◌else◌, length, sort, filter_self, filter-All, filter-append, filter-perm, length-perm,
  contains, All, Bool-cases, inl, inr, sort-perm, sort-All, contains-perm,
}
use cloud_provider_cherry.Metallb.Resource.{Resource, less, resource_eq}
use cloud_provider_cherry.Metallb.Services.{
  Selector, resource, is_named, services, add_service, remove_service,
}
use cloud_provider_cherry.Metallb.Services.Laws.{
  plain, others, rebuilt, add_service-eq, remove_service-eq, services-named, named-append,
  named-plain, named-service_selectors, plain-service_selectors, plain-plain,
}

contains-others : (svc : Resource) (rs : List Resource) → contains svc (others svc rs) ≡ false
contains-others svc [] = refl
contains-others svc (r ∷ rs) = elim (Bool-cases (svc == r)) [
  | inl e ↦ rw e (contains-others svc rs)
  | inr e ↦ rw (e, e) (contains-others svc rs)
]

others_absent : (svc : Resource) (rs : List Resource) → contains svc rs ≡ false → others svc rs ≡ rs
others_absent svc [] h = refl
others_absent svc (r ∷ rs) h = elim (Bool-cases (svc == r)) [
  | inl e ↦ absurd (cc)
  | inr e ↦ rw e (ap (λ l. r ∷ l) (others_absent svc rs (rw e at h)))
]

module _ {S : Type 0} ⦃sel : Selector S⦄ where
  pub named_services : (selectors : List S) → All (λ r. is_named r ≡ true) (services selectors)
  named_services selectors = rw services-named (filter_self is_named (map resource selectors))

  pub services-rebuilt :
      (selectors : List S) (rs : List Resource)
      → All (λ r. is_named r ≡ true) rs
      → services (rebuilt selectors rs) ≡ sort less rs
  services-rebuilt selectors rs h =
      services-named (rebuilt selectors rs)
      ∙ named-append (plain selectors) _
      ∙ simp
          (named-plain, named-service_selectors S _ (sort-All less (λ r. is_named r ≡ true) rs h))

  plain-rebuilt :
      (selectors : List S) (rs : List Resource)
      → All (λ r. is_named r ≡ true) rs
      → plain (rebuilt selectors rs) ≡ plain selectors
  plain-rebuilt selectors rs h = simp (
    filter-append,
    plain-plain,
    plain-service_selectors S _ (sort-All less (λ r. is_named r ≡ true) rs h),
    append-nil,
  )

  -- Of a service with a name and a namespace:
  -- Whether adding it changes the peer, the services that are read from the peer then, and its
  -- selectors with neither label of a service.
  pub add_service_lem :
      (svc : Resource) (selectors : List S)
      → is_named svc ≡ true
      → ((add_service svc selectors).1 ≡ not (contains svc (services selectors)))
        × (services (add_service svc selectors).0 ≡ (
            if contains svc (services selectors)
            then services selectors
            else sort less (svc ∷ services selectors)))
        × (plain (add_service svc selectors).0 ≡ plain selectors)
  add_service_lem svc selectors n = elim (Bool-cases (contains svc (services selectors))) [
    | inl h ↦ rw (add_service-eq, h) (refl, refl, refl)
    | inr h ↦
        rw (add_service-eq, h)
          (
            refl,
            services-rebuilt selectors (svc ∷ services selectors) (n, named_services selectors),
            plain-rebuilt selectors (svc ∷ services selectors) (n, named_services selectors),
          )
  ]

  -- Of a service with a name and a namespace:
  -- After it was added, exactly it and the former services are there.
  pub contains-add_service :
      (svc s : Resource) (selectors : List S)
      → is_named svc ≡ true
      → contains s (services (add_service svc selectors).0)
        ≡ (s == svc || contains s (services selectors))
  contains-add_service svc s selectors n = elim (Bool-cases (contains svc (services selectors))) [
    | inl h ↦ rw ((add_service_lem svc selectors n).1, h) (present (services selectors) h)
    | inr h ↦
        rw ((add_service_lem svc selectors n).1, h)
          (contains-perm s (sort-perm less (svc ∷ services selectors)))
  ]
    where
      present :
          (rs : List Resource)
          → contains svc rs ≡ true
          → contains s rs ≡ (s == svc || contains s rs)
      present rs h = elim (Bool-cases (s == svc)) [
        | inl e ↦ rw (e, (resource_eq.beq_iff s svc).0 e) h
        | inr e ↦ rw e refl
      ]

  pub others_named :
      (svc : Resource) (selectors : List S)
      → All (λ r. is_named r ≡ true) (others svc (services selectors))
  others_named svc selectors =
      filter-All (λ r. not (svc == r)) is_named (services selectors) (named_services selectors)

  -- Of a service with a name and a namespace:
  -- What removing it reports, the services that are read from the peer then, and its selectors with
  -- neither label of a service.
  pub remove_service_lem :
      (svc : Resource) (selectors : List S)
      → is_named svc ≡ true
      → ((remove_service svc selectors).1 ≡ contains svc (services selectors))
        × ((remove_service svc selectors).2 ≡ length (services (remove_service svc selectors).0))
        × (services (remove_service svc selectors).0 ≡ sort less (others svc (services selectors)))
        × (plain (remove_service svc selectors).0 ≡ plain selectors)
  remove_service_lem svc selectors n =
      let rs = others svc (services selectors) in
      let kept = services-rebuilt selectors rs (others_named svc selectors) in
      rw (remove_service-eq svc selectors n) (
        refl,
        sym (ap length kept ∙ length-perm (sort-perm less rs)),
        kept,
        plain-rebuilt selectors rs (others_named svc selectors),
      )

  -- Of a service with a name and a namespace:
  -- A removed service is gone.
  pub contains-remove_service :
      (svc : Resource) (selectors : List S)
      → is_named svc ≡ true
      → contains svc (services (remove_service svc selectors).0) ≡ false
  contains-remove_service svc selectors n = rw (remove_service_lem svc selectors n).2 (
      contains-perm svc (sort-perm less (others svc (services selectors)))
      ∙ contains-others svc (services selectors))

  -- Of a service with a name and a namespace:
  -- Removing a service that was just added gives back the peer's services, up to their order, and
  -- its selectors with neither label of a service.
  pub remove_service-add_service :
      (svc : Resource) (selectors : List S)
      → is_named svc ≡ true
      → contains svc (services selectors) ≡ false
      → Perm (services (remove_service svc (add_service svc selectors).0).0) (services selectors)
        × (plain (remove_service svc (add_service svc selectors).0).0 ≡ plain selectors)
        × ((remove_service svc (add_service svc selectors).0).1 ≡ true)
  remove_service-add_service svc selectors n h =
      let found = services selectors in
      let added = (add_service_lem svc selectors n).1 in
      let now : services (add_service svc selectors).0 ≡ sort less (svc ∷ found) = rw h at added in
      let removed = remove_service_lem svc (add_service svc selectors).0 n in
      (
        rw (removed.2, now)
            (Perm.trans (sort-perm less (others svc (sort less (svc ∷ found)))) (
              Perm.trans (filter-perm (λ r. not (svc == r)) (sort-perm less (svc ∷ found)))
                (rw beq_refl (rw (others_absent svc found h) (Perm.refl found))))),
        removed.3 ∙ (add_service_lem svc selectors n).2,
        removed.0 ∙ rw now (contains-perm svc (sort-perm less (svc ∷ found)) ∙ rw beq_refl),
      )
