-- ===== src/Metallb/Config/Pools/Plain.antt =====
-- AddAddressPool of config.go does not panic on pools as the load balancer adds them: with a value
-- of AutoAssign, and without advertisements.
use cloud_provider_cherry.Prelude.{
  Bool, true, false, ◌||◌, ◌&&◌, none, some, List, [], ◌∷◌, ◌≡◌, refl, ap, ◌∙◌, ◌==◌, ◌!=◌,
  string_eq, nat_eq, bool_eq, list_eq, if◌then◌else◌, All, sort_strings, length, Bool-cases, inl,
  inr,
}
use cloud_provider_cherry.Metallb.Config.{AddressPool, ConfigFile}
use cloud_provider_cherry.Metallb.Config.Compare.{
  Compared, with_addresses, sort_advertisements, equal_advertisements, equal_bgp, equal_addresses,
  equal_ignore_name, equal,
}
use cloud_provider_cherry.Metallb.Config.Pools.{merge_name, add_to_pools, add_address_pool}
use cloud_provider_cherry.Metallb.Config.Pools.Names.{IsOneName}
use cloud_provider_cherry.Metallb.Config.Pools.Adding.{IsNamed, add_to_pools_lem}

abbrev pub IsPlain : AddressPool → Type 0
IsPlain p = ((b : Bool) × (p.auto_assign ≡ some b)) × (p.bgp_advertisements ≡ [])

-- A comparison that does not panic, of pools that stay plain.
abbrev ArePlain : Compared AddressPool → Type 0
ArePlain none = false ≡ true
ArePlain (some (same, a, o)) = IsPlain a × IsPlain o

if-ArePlain :
    (b : Bool) (x y : Compared AddressPool)
    → ArePlain x
    → ArePlain y
    → ArePlain (if b then x else y)
if-ArePlain true x y h k = h
if-ArePlain false x y h k = k

equal_bgp-ArePlain : (a o : AddressPool) → IsPlain a → IsPlain o → ArePlain (equal_bgp a o)
unfolding equal_bgp sort_advertisements equal_advertisements
equal_bgp-ArePlain a o (some_a, none_a) (some_o, none_o) =
    rw (none_a, none_o) ((some_a, refl), (some_o, refl))

equal_ignore_name-ArePlain :
    (a o : AddressPool) → IsPlain a → IsPlain o → ArePlain (equal_ignore_name a o)
unfolding equal_ignore_name equal_addresses
equal_ignore_name-ArePlain a o ((m, e), none_a) ((n, f), none_o) =
    let plain_a : IsPlain a = ((m, e), none_a) in
    let plain_o : IsPlain o = ((n, f), none_o) in
    if-ArePlain (a.protocol != o.protocol || a.avoid_buggy_ips != o.avoid_buggy_ips) _ _
      (plain_a, plain_o)
      (rw (e, f)
        (if-ArePlain (m != n) _ _ (plain_a, plain_o)
          (if-ArePlain (length a.addresses != length o.addresses) _ _ (plain_a, plain_o)
            (if-ArePlain (sort_strings a.addresses == sort_strings o.addresses) _ _
              (equal_bgp-ArePlain (with_addresses a (sort_strings a.addresses))
                (with_addresses o (sort_strings o.addresses)) plain_a plain_o)
              (plain_a, plain_o)))))

compared-IsPlain :
    (r : Compared AddressPool)
    → ArePlain r
    → (same : Bool) × (a' o' : AddressPool) × (r ≡ some (same, a', o')) × (IsPlain a' × IsPlain o')
compared-IsPlain none h = cc
compared-IsPlain (some (same, a', o')) h = (same, a', o', refl, h)

-- What equal makes of a comparison, and the rounds of the loop of AddAddressPool.
equal_of :
    (a o : AddressPool) (alike b : Bool) (a' o' : AddressPool)
    → equal_ignore_name a o ≡ some (alike, a', o')
    → (alike && a.name == o.name) ≡ b
    → equal a o ≡ some (b, a', o')
unfolding equal
equal_of a o alike b a' o' e t = rw (equal, e, t) refl

round_same :
    (add pool p₁ a₁ : AddressPool) (pools : List AddressPool)
    → equal pool add ≡ some (true, p₁, a₁)
    → add_to_pools add (pool ∷ pools) ≡ some (p₁ ∷ pools, false)
unfolding add_to_pools
round_same add pool p₁ a₁ pools e = rw (add_to_pools, e) refl

round_alike :
    (add pool p₁ a₁ p₂ a₂ : AddressPool) (pools : List AddressPool)
    → equal pool add ≡ some (false, p₁, a₁)
    → equal_ignore_name p₁ a₁ ≡ some (true, p₂, a₂)
    → add_to_pools add (pool ∷ pools)
      ≡ some ((merge_name p₂ a₂.name).0 ∷ pools, (merge_name p₂ a₂.name).1)
unfolding add_to_pools
round_alike add pool p₁ a₁ p₂ a₂ pools e f = rw (add_to_pools, e, f) refl

round_on :
    (add pool p₁ a₁ p₂ a₂ : AddressPool) (pools : List AddressPool) (r : List AddressPool × Bool)
    → equal pool add ≡ some (false, p₁, a₁)
    → equal_ignore_name p₁ a₁ ≡ some (false, p₂, a₂)
    → add_to_pools a₂ pools ≡ some r
    → add_to_pools add (pool ∷ pools) ≡ some (p₂ ∷ r.0, r.1)
unfolding add_to_pools
round_on add pool p₁ a₁ p₂ a₂ pools r e f g = rw (add_to_pools, e, f, g) refl

add_to_pools_returns :
    (pools : List AddressPool) (add : AddressPool)
    → IsPlain add
    → All IsPlain pools
    → (r : List AddressPool × Bool) × (add_to_pools add pools ≡ some r)
unfolding add_to_pools
add_to_pools_returns [] add plain h = ((add ∷ [], true), refl)
add_to_pools_returns (pool ∷ pools) add plain (plain_pool, h) =
    let (alike, p₁, a₁, e, (fine_p, fine_a)) =
      compared-IsPlain (equal_ignore_name pool add)
        (equal_ignore_name-ArePlain pool add plain_pool plain) in
    let (alike₂, p₂, a₂, f, (fine_p₂, fine_a₂)) =
      compared-IsPlain (equal_ignore_name p₁ a₁) (equal_ignore_name-ArePlain p₁ a₁ fine_p fine_a) in
    let (r, g) = add_to_pools_returns pools a₂ fine_a₂ h in
    elim (Bool-cases (alike && pool.name == add.name)) [
      | inl t ↦ (_, round_same add pool p₁ a₁ pools (equal_of pool add alike true p₁ a₁ e t))
      | inr t ↦
          let other = equal_of pool add alike false p₁ a₁ e t in
          elim (Bool-cases alike₂) [
            | inl u ↦ (
              _,
              round_alike add pool p₁ a₁ p₂ a₂ pools other
                  (f ∙ ap (λ (b : Bool). some (b, p₂, a₂)) u),
            )
            | inr u ↦ (
              _,
              round_on add pool p₁ a₁ p₂ a₂ pools r other
                  (f ∙ ap (λ (b : Bool). some (b, p₂, a₂)) u) g,
            )
          ]
    ]

-- Of pools with a value of AutoAssign and without advertisements, and of an added one whose name has
-- no comma: AddAddressPool returns without a panic, the added name is then among the names of a pool
-- of the configuration file, and the peers and communities are as they were.
pub add_address_pool_returns :
    (add : AddressPool) (cfg : ConfigFile)
    → IsOneName add.name
    → IsPlain add
    → All IsPlain cfg.pools
    → (after : ConfigFile) × (changed : Bool) × (add_address_pool (some add) cfg
        ≡ some (after, changed))
      × IsNamed add.name after.pools
      × ((after.peers ≡ cfg.peers) × (after.bgp_communities ≡ cfg.bgp_communities))
unfolding add_address_pool
add_address_pool_returns add cfg one plain h =
    let (r, e) = add_to_pools_returns cfg.pools add plain h in
    (
      record cfg { pools = r.0 },
      r.1,
      rw (add_address_pool, e) refl,
      add_to_pools_lem add.name cfg.pools add r one refl e,
      (refl, refl),
    )
