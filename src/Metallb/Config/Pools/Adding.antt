-- ===== src/Metallb/Config/Pools/Adding.antt =====
-- The pools after AddAddressPool of config.go.
use mathlib.Core.Path.{subst}
use mathlib.Core.Option.{none-ne-some}
use cloud_provider_cherry.Prelude.{
  String, Bool, true, false, ◌&&◌, ◌||◌, none, some, List, [], ◌∷◌, ◌≡◌, refl, sym, ap, ◌∙◌, ◌==◌,
  ◌!=◌, string_eq, nat_eq, bool_eq, list_eq, if◌then◌else◌, any, contains, sort_strings, length,
  Option-cases, Bool-cases, inl, inr, some_inj, arith, beq_refl,
}
use cloud_provider_cherry.Metallb.Config.{AddressPool}
use cloud_provider_cherry.Metallb.Config.Compare.{
  Compared, with_addresses, with_advertisements, sort_advertisements, equal_advertisements,
  equal_bgp, equal_addresses, equal_ignore_name, equal,
}
use cloud_provider_cherry.Metallb.Config.Pools.{split_names, merge_name, add_to_pools}
use cloud_provider_cherry.Metallb.Config.Pools.Names.{
  IsOneName, contains-merged, split_names-of_one,
}

-- A comparison leaves the names of both pools.
abbrev KeepsNames : String → String → Compared AddressPool → Type 0
KeepsNames a o none = Unit
KeepsNames a o (some (same, a', o')) = (a'.name ≡ a) × (o'.name ≡ o)

if-KeepsNames :
    (a o : String) (b : Bool) (x y : Compared AddressPool)
    → KeepsNames a o x
    → KeepsNames a o y
    → KeepsNames a o (if b then x else y)
if-KeepsNames a o true x y h k = h
if-KeepsNames a o false x y h k = k

equal_bgp-KeepsNames : (a o : AddressPool) → KeepsNames a.name o.name (equal_bgp a o)
unfolding equal_bgp
equal_bgp-KeepsNames a o =
    if-KeepsNames a.name o.name (length a.bgp_advertisements != length o.bgp_advertisements) _ _
      (refl, refl) sorted
  where
    sorted : KeepsNames a.name o.name (elim (sort_advertisements a.bgp_advertisements) [
      | none ↦ none
      | some bs ↦ elim (sort_advertisements o.bgp_advertisements) [
        | none ↦ none
        | some os ↦ elim (equal_advertisements bs os) [
          | none ↦ none
          | some (same, bs', os') ↦
              some (same, with_advertisements a bs', with_advertisements o os')
        ]
      ]
    ])
    sorted = elim (Option-cases (sort_advertisements a.bgp_advertisements)) [
      | inl e ↦ rw e tt
      | inr (bs, e) ↦ elim (Option-cases (sort_advertisements o.bgp_advertisements)) [
        | inl f ↦ rw (e, f) tt
        | inr (os, f) ↦ elim (Option-cases (equal_advertisements bs os)) [
          | inl g ↦ rw (e, f, g) tt
          | inr (r, g) ↦ rw (e, f, g) (refl, refl)
        ]
      ]
    ]

equal_ignore_name-KeepsNames :
    (a o : AddressPool) → KeepsNames a.name o.name (equal_ignore_name a o)
unfolding equal_ignore_name equal_addresses
equal_ignore_name-KeepsNames a o =
    if-KeepsNames a.name o.name (a.protocol != o.protocol || a.avoid_buggy_ips != o.avoid_buggy_ips)
      _ _ (refl, refl)
      (elim (Option-cases a.auto_assign) [
        | inl e ↦ rw e tt
        | inr (m, e) ↦ elim (Option-cases o.auto_assign) [
          | inl f ↦ rw (e, f) tt
          | inr (n, f) ↦
              rw (e, f)
                (if-KeepsNames a.name o.name (m != n) _ _ (refl, refl)
                  (if-KeepsNames a.name o.name (length a.addresses != length o.addresses) _ _
                    (refl, refl)
                    (if-KeepsNames a.name o.name
                      (sort_strings a.addresses == sort_strings o.addresses) _ _
                      (equal_bgp-KeepsNames (with_addresses a (sort_strings a.addresses))
                        (with_addresses o (sort_strings o.addresses)))
                      (refl, refl))))
        ]
      ])

names_kept :
    (a o : AddressPool) (same : Bool) (a' o' : AddressPool)
    → equal_ignore_name a o ≡ some (same, a', o')
    → (a'.name ≡ a.name) × (o'.name ≡ o.name)
names_kept a o same a' o' e = subst (KeepsNames a.name o.name) e (equal_ignore_name-KeepsNames a o)

equal_names :
    (a o : AddressPool) (same : Bool) (a' o' : AddressPool)
    → equal a o ≡ some (same, a', o')
    → (a'.name ≡ a.name) × (o'.name ≡ o.name) × (same ≡ true → a.name ≡ o.name)
unfolding equal
equal_names a o same a' o' e = elim (Option-cases (equal_ignore_name a o)) [
  | inl f ↦ absurd (none-ne-some (same, a', o') (rw (f, equal) at e))
  | inr ((alike, b, p), f) ↦
      let k = some_inj (rw (f, equal) at e) in
      let (kept_a, kept_o) = names_kept a o alike b p f in
      (
        ap (λ (r : Bool × AddressPool × AddressPool). r.1.name) (sym k) ∙ kept_a,
        ap (λ (r : Bool × AddressPool × AddressPool). r.2.name) (sym k) ∙ kept_o,
        λ h. (string_eq.beq_iff a.name o.name).0 (
            second alike (a.name == o.name)
              (ap (λ (r : Bool × AddressPool × AddressPool). r.0) k ∙ h)),
      )
]
  where
    second : (x y : Bool) → (x && y) ≡ true → y ≡ true
    second true y h = h
    second false y h = cc

-- The name is among those of a pool of the list.
abbrev pub IsNamed : String → List AddressPool → Type 0
IsNamed name pools =
    any (λ (pool : AddressPool). contains name (split_names pool.name)) pools ≡ true

head-IsNamed :
    (name : String) (pool : AddressPool) (pools : List AddressPool)
    → contains name (split_names pool.name) ≡ true
    → IsNamed name (pool ∷ pools)
head-IsNamed name pool pools h = rw h refl

tail-IsNamed :
    (name : String) (pool : AddressPool) (pools : List AddressPool)
    → IsNamed name pools
    → IsNamed name (pool ∷ pools)
tail-IsNamed name pool pools h = ground arith

own_name :
    (name : String) (pool : AddressPool)
    → IsOneName name
    → pool.name ≡ name
    → contains name (split_names pool.name) ≡ true
own_name name pool one e =
    ap (λ (n : String). contains name (split_names n)) e
    ∙ ap (contains name) (split_names-of_one name one)
    ∙ rw beq_refl refl

merged_name :
    (name : String) (pool : AddressPool)
    → IsOneName name
    → contains name (split_names (merge_name pool name).0.name) ≡ true
unfolding merge_name
merged_name name pool one = elim (Bool-cases (contains name (split_names pool.name))) [
  | inl e ↦ rw (merge_name, e) e
  | inr e ↦ rw (merge_name, e) (contains-merged name pool.name one)
]

pub add_to_pools_lem :
    (name : String) (pools : List AddressPool) (add : AddressPool) (r : List AddressPool × Bool)
    → IsOneName name
    → add.name ≡ name
    → add_to_pools add pools ≡ some r
    → IsNamed name r.0
unfolding add_to_pools
add_to_pools_lem name [] add r one n h =
    subst (λ (q : List AddressPool × Bool). IsNamed name q.0) (some_inj h)
      (head-IsNamed name add [] (own_name name add one n))
add_to_pools_lem name (pool ∷ pools) add r one n h = elim (Option-cases (equal pool add)) [
  | inl e ↦ absurd (none-ne-some r (rw (add_to_pools, e) at h))
  | inr ((same, pool₁, add₁), e) ↦
      let (kept, added, alike_names) = equal_names pool add same pool₁ add₁ e in
      elim (Bool-cases same) [
        | inl t ↦
            subst (λ (q : List AddressPool × Bool). IsNamed name q.0)
              (some_inj (rw (add_to_pools, e, t) at h))
              (head-IsNamed name pool₁ pools (own_name name pool₁ one (kept ∙ alike_names t ∙ n)))
        | inr t ↦ elim (Option-cases (equal_ignore_name pool₁ add₁)) [
          | inl f ↦ absurd (none-ne-some r (rw (add_to_pools, e, t, f) at h))
          | inr ((alike, pool₂, add₂), f) ↦
              let (kept₂, added₂) = names_kept pool₁ add₁ alike pool₂ add₂ f in
              let named : add₂.name ≡ name = added₂ ∙ added ∙ n in
              elim (Bool-cases alike) [
                | inl u ↦
                    subst (λ (q : List AddressPool × Bool). IsNamed name q.0)
                      (some_inj (rw (add_to_pools, e, t, f, u) at h))
                      (head-IsNamed name (merge_name pool₂ add₂.name).0 pools (
                        ap (λ (m : String). contains name (split_names (merge_name pool₂ m).0.name))
                          named
                        ∙ merged_name name pool₂ one))
                | inr u ↦ elim (Option-cases (add_to_pools add₂ pools)) [
                  | inl g ↦ absurd (none-ne-some r (rw (add_to_pools, e, t, f, u, g) at h))
                  | inr (others, g) ↦
                      subst (λ (q : List AddressPool × Bool). IsNamed name q.0)
                        (some_inj (rw (add_to_pools, e, t, f, u, g) at h))
                        (tail-IsNamed name pool₂ others.0
                          (add_to_pools_lem name pools add₂ others one named g))
                ]
              ]
        ]
      ]
]
