-- ===== src/Metallb/Crd/Pools/Adding.antt =====
-- What AddAddressPool of crd.go comes to when no pool of the cluster matches the added one.
use cloud_provider_cherry.Prelude.{
  String, Bool, true, false, not, ◌||◌, Option, some, List, [], ◌∷◌, ◌++◌, ◌≡◌, refl, sym, ap, ◌∙◌,
  ◌==◌, string_eq, if◌then◌else◌, all, ◌<>◌, Labels, lookup, lookup-insert, beq_refl,
  append-ne_of_prefix, Bool-cases, inl, inr,
}
use cloud_provider_cherry.Effect.{
  Result, ok, Action, wrapping, >>=-eq-ok, wrapping-eq-ok, Result-cases, ok_inj,
}
use cloud_provider_cherry.Metallb.Resource.{Resource}
use cloud_provider_cherry.Metallb.Config.{AddressPool}
use cloud_provider_cherry.Metallb.Api.{
  IpAddressPoolSpec, IpAddressPool, BgpAdvertisementSpec, BgpAdvertisement, Kind, IsLawful,
}
use cloud_provider_cherry.Metallb.Crd.{cpem_labels, default_bgp_advertisement, convert_to_ip_addr}
use cloud_provider_cherry.Metallb.Crd.Pools.{
  shares_address, with_pools, default_advertisement, extend_advertisements, advertise,
  list_advertisements, visit_pools, create_pool, list_pools, add_address_pool,
}
use cloud_provider_cherry.Metallb.Crd.Pools.Laws.{IsQuiet, >>=-IsQuiet}

-- The pool has neither the name of the added one nor any of its addresses.
abbrev pub is_apart : IpAddressPool → IpAddressPool → Bool
is_apart add o = not (o.name == add.name || shares_address add.spec.addresses o.spec.addresses)

-- The pool of the cluster that stands for an added pool and its service.
pub record IsPoolOf (add : AddressPool) (namespace : String) (svc : Resource) (pool : IpAddressPool)
    : Type 0 where
  pub name_kept : pool.name ≡ add.name
  pub in_namespace : pool.namespace ≡ namespace
  pub service_label :
      lookup ("service-" <> svc.name) pool.labels ≡ some ("namespace-" <> svc.namespace)
  pub own_label : lookup "cloud-provider" pool.labels ≡ some "equinix-metal"
  pub addresses_kept : pool.spec.addresses ≡ add.addresses
  pub auto_assign_kept : pool.spec.auto_assign ≡ add.auto_assign
  pub avoid_buggy_ips_kept : pool.spec.avoid_buggy_ips ≡ add.avoid_buggy_ips

own_found :
    lookup {K = String} {V = String} "cloud-provider" (("cloud-provider", "equinix-metal") ∷ [])
    ≡ some "equinix-metal"
unfolding lookup
own_found = refl

other_key : (name : String) → ("service-" <> name == "cloud-provider") ≡ false
other_key name = append-ne_of_prefix "service-" name "cloud-provider" refl

convert_to_ip_addr-IsPoolOf :
    (add : AddressPool) (namespace : String) (svc : Resource)
    → IsPoolOf add namespace svc (convert_to_ip_addr add namespace svc)
unfolding convert_to_ip_addr
convert_to_ip_addr-IsPoolOf add namespace svc =
    let own : Labels = ("cloud-provider", "equinix-metal") ∷ [] in
    let key = "service-" <> svc.name in
    let value = "namespace-" <> svc.namespace in
    record {
      name_kept = refl;
      in_namespace = refl;
      service_label = lookup-insert key key value own ∙ rw (beq_refl key) refl;
      own_label = lookup-insert key "cloud-provider" value own ∙ rw (other_key svc.name) own_found;
      addresses_kept = refl;
      auto_assign_kept = refl;
      avoid_buggy_ips_kept = refl;
    }

module _ {W : Type 0} (namespace : String) (advs : Kind W BgpAdvertisementSpec)
    (pools : Kind W IpAddressPoolSpec) (find : W → String → Option IpAddressPool)
    (law : IsLawful pools cpem_labels namespace find)
    (creates : (o : BgpAdvertisement) → IsQuiet find (advs.create o))
    (patches : (o o' : BgpAdvertisement) → IsQuiet find (advs.patch o o')) where
  visit_pools_apart :
      (svc : Resource) (add : IpAddressPool) (os : List IpAddressPool) (create : Action W Bool)
      (w : W)
      → all (is_apart add) os ≡ true
      → visit_pools advs pools svc add os create w ≡ create w
  unfolding visit_pools
  visit_pools_apart svc add [] create w h = refl
  visit_pools_apart svc add (o ∷ os) create w h = elim (Bool-cases (o.name == add.name)) [
    | inl e ↦ false_true (rw e at h)
    | inr e ↦ elim (Bool-cases (shares_address add.spec.addresses o.spec.addresses)) [
      | inl s ↦ false_true (rw (e, s) at h)
      | inr s ↦ rw (e, s) (visit_pools_apart svc add os create w (rw (e, s) at h))
    ]
  ]
    where
      false_true : {A : Type 0} → false ≡ true → A
      false_true p = cc

  extend_advertisements-IsQuiet :
      (pool : String) (listed : List BgpAdvertisement)
      → IsQuiet find (extend_advertisements advs pool listed)
  unfolding extend_advertisements
  extend_advertisements-IsQuiet pool [] w = refl
  extend_advertisements-IsQuiet pool (adv ∷ rest) w =
      let longer = with_pools adv (adv.spec.ip_address_pools ++ (pool ∷ [])) in
      elim (Bool-cases (adv.name == default_bgp_advertisement)) [
        | inl e ↦ rw e (
            >>=-IsQuiet find (wrapping "unable to update BGPAdvertisement" (advs.patch adv longer))
              (λ u. extend_advertisements advs pool rest) (patches adv longer)
              (λ u. extend_advertisements-IsQuiet pool rest) w)
        | inr e ↦ rw e (extend_advertisements-IsQuiet pool rest w)
      ]

  advertise-IsQuiet : (pool : String) → IsQuiet find (advertise advs namespace pool)
  unfolding advertise
  advertise-IsQuiet pool w = elim (Result-cases (list_advertisements advs namespace w)) [
    | inl (x, e) ↦ rw (e, advertise) refl
    | inr (listed, e) ↦ go listed e
  ]
    where
      go :
          (listed : List BgpAdvertisement)
          → list_advertisements advs namespace w ≡ ok listed
          → find (advertise advs namespace pool w).1 ≡ find w
      go [] e = rw (e, advertise) (creates (default_advertisement namespace pool) w)
      go (adv ∷ rest) e = rw (e, advertise) (extend_advertisements-IsQuiet pool (adv ∷ rest) w)

  -- Over a lawful API, in which calls on advertisements leave the pools:
  -- AddAddressPool, when it succeeds and no pool of the cluster has the added pool's name or one of
  -- its addresses: it reports a change, and every pool of another name is as it was. Under the name
  -- of the added pool there is one of the configurer's namespace, with the label of the configurer
  -- and that of its service, and with the addresses and the two settings of the added pool.
  pub add_address_pool_lem :
      (add : AddressPool) (svc : Resource) (os : List IpAddressPool) (w w' : W) (b : Bool)
      → list_pools advs pools namespace w ≡ ok os
      → all (is_apart (convert_to_ip_addr add namespace svc)) os ≡ true
      → add_address_pool advs pools namespace (some add) svc w ≡ (ok b, w')
      → (n : String)
      → (pool : IpAddressPool) × (b ≡ true)
        × (find w' n ≡ (if add.name == n then some pool else find w n))
        × IsPoolOf add namespace svc pool
  unfolding add_address_pool create_pool
  add_address_pool_lem add svc os w w' b e apart h n =
      let pool = convert_to_ip_addr add namespace svc in
      let made : create_pool advs pools namespace pool w ≡ (ok b, w') =
        sym (visit_pools_apart svc pool os (create_pool advs pools namespace pool) w apart)
        ∙ (rw (e, add_address_pool) at h) in
      let (u, w₁, created, rest) =
        >>=-eq-ok (wrapping "unable to add IPAddressPool" (pools.create pool)) _ w made in
      let (v, w₂, told, end) = >>=-eq-ok (advertise advs namespace pool.name) _ w₁ rest in
      let as_pool = convert_to_ip_addr-IsPoolOf add namespace svc in
      (
        pool,
        sym (ok_inj (ap (λ (r : Result Bool × W). r.0) end)),
        ap (λ (r : Result Bool × W). find r.1 n) (sym end)
            ∙ ap (λ (r : Result Unit × W). find r.1 n) (sym told)
            ∙ ap (λ g. g n) (advertise-IsQuiet pool.name w₁)
            ∙ law.find-create pool w w₁ (as_pool.in_namespace, (as_pool.own_label, tt))
                (wrapping-eq-ok "unable to add IPAddressPool" (pools.create pool) w created) n
            ∙ ap (λ (name : String). if name == n then some pool else find w n) as_pool.name_kept,
        as_pool,
      )
