-- ===== src/Metallb/Services/Rebuilding.antt =====
-- Which selectors AddService and RemoveService leave a peer.
use mathlib.Core.List.{Perm}
use cloud_provider_cherry.Prelude.{
  ◌≡◌, refl, true, false, not, ◌||◌, List, [], ◌∷◌, ◌++◌, map, ◌⊎◌, arith, string_eq, length, sort,
  filter, filter-append, length-perm, contains, All, Bool-cases, inl, inr, sort-perm, sort-All,
}
use cloud_provider_cherry.Metallb.Resource.{Resource, less, resource_eq}
use cloud_provider_cherry.Metallb.Services.{
  Selector, resource, service_selector, is_blank, is_named, services, add_service, remove_service,
}
use cloud_provider_cherry.Metallb.Services.Laws.{
  plain, others, rebuilt, add_service-eq, remove_service-eq, resource-service_selector,
}
use cloud_provider_cherry.Metallb.Services.Updates.{named_services, services-rebuilt, others_named}

module _ {S : Type 0} ⦃sel : Selector S⦄ where
  -- The selectors that have one of the labels of a service, and not the other.
  abbrev pub half : List S → List S
  half = filter (λ ns. not (is_blank (resource ns) || is_named (resource ns)))

  half-plain : (selectors : List S) → half (plain selectors) ≡ []
  half-plain [] = refl
  half-plain (ns ∷ rest) = ground (arith, half-plain rest)

  half-service_selectors :
      (rs : List Resource)
      → All (λ r. is_named r ≡ true) rs
      → half (map (service_selector {S = S}) rs) ≡ []
  half-service_selectors [] h = refl
  half-service_selectors (r ∷ rs) h =
      rw (resource-service_selector S r, h.0) (ground (arith, half-service_selectors rs h.1))

  half-rebuilt :
      (selectors : List S) (rs : List Resource)
      → All (λ r. is_named r ≡ true) rs
      → half (rebuilt selectors rs) ≡ []
  half-rebuilt selectors rs h = simp (
    filter-append,
    half-plain,
    half-service_selectors _ (sort-All less (λ r. is_named r ≡ true) rs h),
  )

  -- Of a service with a name and a namespace:
  -- A peer that has the service is left as it is, and no change is reported. Otherwise a change is
  -- reported, and the peer's selectors are those with neither label of a service, in their order,
  -- and then one for each of the former services and the new one, in some order. A selector with
  -- only one of the two labels, though it names no service, is not among them.
  pub add_service-cases :
      (svc : Resource) (selectors : List S)
      → is_named svc ≡ true
      → ((contains svc (services selectors) ≡ true)
          × (add_service svc selectors ≡ (selectors, false)))
        ⊎ ((contains svc (services selectors) ≡ false)
            × (rs : List Resource) × Perm rs (svc ∷ services selectors)
            × (add_service svc selectors ≡ (plain selectors ++ map service_selector rs, true))
            × (services (add_service svc selectors).0 ≡ rs)
            × (half (add_service svc selectors).0 ≡ []))
  add_service-cases svc selectors n =
      let all_named : All (λ r. is_named r ≡ true) (svc ∷ services selectors) =
        (n, named_services selectors) in
      elim (Bool-cases (contains svc (services selectors))) [
        | inl h ↦ inl (h, rw (add_service-eq, h) refl)
        | inr h ↦ inr (
          h,
          sort less (svc ∷ services selectors),
          sort-perm less (svc ∷ services selectors),
          rw (add_service-eq, h) refl,
          rw (add_service-eq, h) (services-rebuilt selectors (svc ∷ services selectors) all_named),
          rw (add_service-eq, h) (half-rebuilt selectors (svc ∷ services selectors) all_named),
        )
      ]

  -- Of a service with a name and a namespace:
  -- Removing a service reports whether the peer had it and how many services are left. The peer's
  -- selectors then are those with neither label of a service, in their order, and then one for each
  -- of the other services, in some order. A selector with only one of the two labels, though it names
  -- no service, is not among them.
  pub remove_service-cases :
      (svc : Resource) (selectors : List S)
      → is_named svc ≡ true
      → (rs : List Resource) × Perm rs (others svc (services selectors))
        × (remove_service svc selectors ≡ (
          plain selectors ++ map service_selector rs,
          contains svc (services selectors),
          length rs,
        ))
        × (services (remove_service svc selectors).0 ≡ rs)
        × (half (remove_service svc selectors).0 ≡ [])
  remove_service-cases svc selectors n =
      let left = others svc (services selectors) in
      (
        sort less left,
        sort-perm less left,
        rw (remove_service-eq svc selectors n, length-perm (sort-perm less left)) refl,
        rw (remove_service-eq svc selectors n)
            (services-rebuilt selectors left (others_named svc selectors)),
        rw (remove_service-eq svc selectors n)
            (half-rebuilt selectors left (others_named svc selectors)),
      )
