-- ===== src/Metallb/Services/Laws.antt =====
-- What the loops over a peer's node selectors compute, said without accumulators.
use mathlib.Core.List.{append_assoc, append-nil, map-append}
use cloud_provider_cherry.Prelude.{
  ◌≡◌, refl, sym, ap, Bool, true, false, not, ◌&&◌, ◌||◌, none, some, List, [], ◌∷◌, ◌++◌, map,
  ◌==◌, ◌!=◌, string_eq, if◌then◌else◌, length, sort, filter, filter-append, contains, length-perm,
  sort-perm, arith, eq_iff, All, Bool-cases, inl, inr,
}
use cloud_provider_cherry.Metallb.Resource.{Resource, less, resource_eq}
use cloud_provider_cherry.Metallb.Services.{
  Selector, service_of, is_blank, is_named, service_labels, resource, service_selector,
  services_from, services, add_loop, add_service, remove_loop, remove_service,
}

-- The labels of a service's selector name that service.
pub service_of-service_labels : (r : Resource) → service_of (service_labels r) ≡ r
unfolding service_of
service_of-service_labels r = refl

module _ {S : Type 0} ⦃sel : Selector S⦄ where
  -- The selectors that name no service at all.
  abbrev pub plain : List S → List S
  plain = filter (λ ns. is_blank (resource ns))

  -- The services that the selectors name in full.
  abbrev pub named : List S → List Resource
  named selectors = filter is_named (map resource selectors)

  services_from-named :
      (found : List Resource) (selectors : List S)
      → services_from found selectors ≡ found ++ named selectors
  unfolding services_from
  services_from-named found [] = sym (append-nil found)
  services_from-named found (ns ∷ rest) = elim (Bool-cases (is_named (resource ns))) [
    | inl n ↦
        rw (n, services_from-named (found ++ (resource ns ∷ [])) rest)
          (append_assoc found (resource ns ∷ []) (named rest))
    | inr n ↦ rw (n, services_from-named found rest)
  ]

  pub services-named : (selectors : List S) → services selectors ≡ named selectors
  unfolding services
  services-named selectors = services_from-named [] selectors

  pub named-append : (xs ys : List S) → named (xs ++ ys) ≡ named xs ++ named ys
  named-append xs ys = simp (map-append, filter-append)

  pub named-plain : (xs : List S) → named (plain xs) ≡ []
  named-plain [] = refl
  named-plain (x ∷ xs) = ground (arith, named-plain xs)

  pub plain-plain : (xs : List S) → plain (plain xs) ≡ plain xs
  plain-plain [] = refl
  plain-plain (x ∷ xs) = ground (arith, plain-plain xs)

module _ (S : Type 0) ⦃sel : Selector S⦄ where
  pub resource-service_selector : (r : Resource) → resource (service_selector {S = S} r) ≡ r
  resource-service_selector r = rw sel.match_labels-of_labels (service_of-service_labels r)

  pub named-service_selectors :
      (rs : List Resource)
      → All (λ r. is_named r ≡ true) rs
      → named (map (service_selector {S = S}) rs) ≡ rs
  named-service_selectors [] h = refl
  named-service_selectors (r ∷ rs) h =
      rw (resource-service_selector r, h.0) (ap (λ l. r ∷ l) (named-service_selectors rs h.1))

  pub plain-service_selectors :
      (rs : List Resource)
      → All (λ r. is_named r ≡ true) rs
      → plain (map (service_selector {S = S}) rs) ≡ []
  plain-service_selectors [] h = refl
  plain-service_selectors (r ∷ rs) h =
      rw (resource-service_selector r) (ground (arith, plain-service_selectors rs h.1))

is_blank→not_named : (r : Resource) → is_blank r ≡ true → is_named r ≡ false
is_blank→not_named r h = ground (arith, eq_iff r.name "", eq_iff r.namespace "")

module _ {S : Type 0} ⦃sel : Selector S⦄ where
  add_loop-eq :
      (svc : Resource) (found : List Resource) (kept selectors : List S)
      → add_loop svc found kept selectors ≡ (
          if contains svc (named selectors)
          then none
          else some (found ++ named selectors, kept ++ plain selectors))
  unfolding add_loop
  add_loop-eq svc found kept [] = simp append-nil
  add_loop-eq svc found kept (ns ∷ rest) =
      let r = resource ns in
      elim (Bool-cases (is_blank r)) [
        | inl b ↦
            rw (b, is_blank→not_named r b)
              (rw append_assoc at (add_loop-eq svc found (kept ++ (ns ∷ [])) rest))
        | inr nb ↦ elim (Bool-cases (is_named r)) [
          | inl n ↦
              rw (nb, n)
                (elim (Bool-cases (svc == r)) [
                  | inl e ↦ rw (e) refl
                  | inr e ↦
                      rw (e) (rw append_assoc at (add_loop-eq svc (found ++ (r ∷ [])) kept rest))
                ])
          | inr n ↦ rw (nb, n) (add_loop-eq svc found kept rest)
        ]
      ]

module _ (svc r : Resource) where
  hit_eq : (r.name == svc.name && r.namespace == svc.namespace) ≡ (svc == r)
  hit_eq = ground (
    arith,
    eq_iff r.name svc.name,
    eq_iff svc.name r.name,
    eq_iff r.namespace svc.namespace,
    eq_iff svc.namespace r.namespace,
  )

  other_eq : (r.name != svc.name || r.namespace != svc.namespace) ≡ not (svc == r)
  other_eq = ground (
    arith,
    eq_iff r.name svc.name,
    eq_iff svc.name r.name,
    eq_iff r.namespace svc.namespace,
    eq_iff svc.namespace r.namespace,
  )

  hit→is_named : is_named svc ≡ true → (svc == r) ≡ true → is_named r ≡ true
  hit→is_named n h = rw (← (resource_eq.beq_iff svc r).0 h) n

-- All services but one.
abbrev pub others : Resource → List Resource → List Resource
others svc = filter (λ r. not (svc == r))

module _ {S : Type 0} ⦃sel : Selector S⦄ (svc : Resource) (svc_named : is_named svc ≡ true) where
  remove_loop-eq :
      (found : Bool) (left : List Resource) (kept selectors : List S)
      → remove_loop svc found left kept selectors ≡ (
        found || contains svc (named selectors),
        left ++ others svc (named selectors),
        kept ++ plain selectors,
      )
  unfolding remove_loop
  remove_loop-eq found left kept [] = simp append-nil (ground arith)
  remove_loop-eq found left kept (ns ∷ rest) =
      let r = resource ns in
      elim (Bool-cases (is_blank r)) [
        | inl b ↦
            rw (b, is_blank→not_named r b)
              (rw append_assoc at (remove_loop-eq found left (kept ++ (ns ∷ [])) rest))
        | inr nb ↦ elim (Bool-cases (svc == r)) [
          | inl e ↦
              rw (nb, hit_eq svc r, e, hit→is_named svc r svc_named e)
                (ground (arith, remove_loop-eq true left kept rest))
          | inr e ↦ elim (Bool-cases (is_named r)) [
            | inl n ↦
                rw (nb, hit_eq svc r, other_eq svc r, n, e)
                  (rw append_assoc at (remove_loop-eq found (left ++ (r ∷ [])) kept rest))
            | inr n ↦ rw (nb, hit_eq svc r, n, e) (remove_loop-eq found left kept rest)
          ]
        ]
      ]

module _ {S : Type 0} ⦃sel : Selector S⦄ where
  -- The selectors that both operations leave: the plain ones, then one for each service.
  abbrev pub rebuilt : List S → List Resource → List S
  rebuilt selectors rs = plain selectors ++ map service_selector (sort less rs)

  pub add_service-eq :
      (svc : Resource) (selectors : List S)
      → add_service svc selectors ≡ (
          if contains svc (services selectors)
          then (selectors, false)
          else (rebuilt selectors (svc ∷ services selectors), true))
  unfolding add_service
  add_service-eq svc selectors =
      rw (services-named, add_loop-eq svc (svc ∷ []) [] selectors, add_service)
        (elim (Bool-cases (contains svc (named selectors))) [ inl e ↦ rw e | inr e ↦ rw e ])

  pub remove_service-eq :
      (svc : Resource) (selectors : List S)
      → is_named svc ≡ true
      → remove_service svc selectors ≡ (
        rebuilt selectors (others svc (services selectors)),
        contains svc (services selectors),
        length (others svc (services selectors)),
      )
  unfolding remove_service
  remove_service-eq svc selectors n =
      rw (services-named, remove_loop-eq svc n false [] [] selectors)
        (rw (length-perm (sort-perm less (others svc (named selectors)))))
