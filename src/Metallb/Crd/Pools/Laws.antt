-- ===== src/Metallb/Crd/Pools/Laws.antt =====
-- What RemoveAddressPool and the merging of addresses of crd.go come to.
use cloud_provider_cherry.Prelude.{
  ℕ, zero, suc, ◌+◌, ◌-◌, ◌≤◌, String, Bool, true, false, ◌&&◌, ◌||◌, Option, none, List, [], ◌∷◌,
  ◌++◌, ◌≡◌, refl, sym, ap, ◌∙◌, ◌==◌, string_eq, if◌then◌else◌, ltb, length, length-append,
  length-perm, any, Bool-cases, sort-perm, text_lt, eq_iff, arith, sort_strings, inl, inr,
}
use cloud_provider_cherry.Effect.{
  wrap-eq-ok, Result, ok, err, Action, wrapping, ◌>>=◌, >>=-eq-ok, wrapping-eq-ok, Result-cases,
  ok-ne-err,
}
use cloud_provider_cherry.Metallb.Api.{
  IpAddressPoolSpec, IpAddressPool, BgpAdvertisementSpec, BgpAdvertisement, Kind, named_object,
  IsLawful,
}
use cloud_provider_cherry.Metallb.Crd.{cpem_labels, default_bgp_advertisement}
use cloud_provider_cherry.Metallb.Crd.Pools.{
  drop_same, compact, blanks, merge_addresses, with_pools, remove_at, element, withdraw_from,
  withdraw, delete_pools, list_pools, list_advertisements, remove_address_pool,
}

length-drop_same : (x : String) (ys : List String) → length (drop_same x ys) ≤ length ys
unfolding drop_same
length-drop_same x [] = omega arith
length-drop_same x (y ∷ ys) = ground (arith, length-drop_same y ys)

length-compact : (xs : List String) → length (compact xs) ≤ length xs
unfolding compact
length-compact [] = omega arith
length-compact (x ∷ xs) = omega (arith, length-drop_same x xs)

length-blanks : (n : ℕ) → length (blanks n) ≡ n
unfolding blanks
length-blanks zero = refl
length-blanks (suc n) = ap suc (length-blanks n)

-- The merged addresses of a pool are as many as its own and the added ones together: a duplicate
-- that Compact removes leaves an empty address.
pub length-merge_addresses :
    (old added : List String) → length (merge_addresses old added) ≡ length old + length added
unfolding merge_addresses
length-merge_addresses old added =
    let all_of = sort_strings (old ++ added) in
    omega (
      arith,
      length-append (compact all_of) (blanks (length all_of - length (compact all_of))),
      length-blanks (length all_of - length (compact all_of)),
      length-compact all_of,
      length-sort_strings (old ++ added),
      length-append old added,
    )
  where
    length-sort_strings : (xs : List String) → length (sort_strings xs) ≡ length xs
    length-sort_strings xs = length-perm (sort-perm text_lt xs)

-- An action that leaves what `view` shows of the world.
abbrev pub IsQuiet {ℓ} : {W A V : Type ℓ} → (W → V) → Action W A → Type ℓ
IsQuiet {W} view m = (w : W) → view (m w).1 ≡ view w

module _ {W A B V : Type 0} (view : W → V) where
  pub >>=-IsQuiet :
      (m : Action W A) (f : A → Action W B)
      → IsQuiet view m
      → ((a : A) → IsQuiet view (f a))
      → IsQuiet view (m >>= f)
  >>=-IsQuiet m f hm hf w = elim (Result-cases (m w).0) [
    | inl (e, h) ↦ rw h (hm w)
    | inr (a, h) ↦ rw h (hf a (m w).1 ∙ hm w)
  ]

kept : {A : Type 0} {a : Option A} (b : Bool) → a ≡ (if b && false then none else a)
kept true = refl
kept false = refl

-- A round of the loop that deletes its pool.
deleted :
    {A : Type 0} (o pool n : String) (later : Bool) (before : Option A) {now : Option A}
    → (o == pool) ≡ true
    → now ≡ (if o == n then none else before)
    → (if (pool == n) && later then none else now)
      ≡ (if (pool == n) && ((o == n) || later) then none else before)
deleted o pool n later before {now} e step =
    rw (step, (eq_iff o pool).0 e) (by_cases before (pool == n) later)
  where
    by_cases :
        {A : Type 0} (a : Option A) (b later : Bool)
        → (if b && later then none else (if b then none else a))
          ≡ (if b && (b || later) then none else a)
    by_cases a true true = refl
    by_cases a true false = refl
    by_cases a false later = refl

-- A round of the loop that spares its pool.
spared :
    {A : Type 0} (o pool n : String) (later : Bool) (before : Option A)
    → (o == pool) ≡ false
    → (if (pool == n) && later then none else before)
      ≡ (if (pool == n) && ((o == n) || later) then none else before)
spared o pool n later before e = elim (Bool-cases (pool == n)) [
  | inr g ↦ rw g refl
  | inl g ↦ elim (Bool-cases (o == n)) [
    | inr f ↦ rw f refl
    | inl f ↦
        let same : (o == pool) ≡ true =
          (eq_iff o pool).1 ((eq_iff o n).0 f ∙ sym ((eq_iff pool n).0 g)) in
        cc
  ]
]

named_absent :
    (n : String) (os : List IpAddressPool)
    → any (λ (o : IpAddressPool). o.name == n) os ≡ false
    → named_object n os ≡ none
named_absent n [] h = refl
named_absent n (o ∷ os) h = ground (arith, named_absent n os)

all_deleted :
    (pool n : String) (os : List IpAddressPool) (before : Option IpAddressPool)
    → before ≡ named_object n os
    → (if (pool == n) && any (λ (o : IpAddressPool). o.name == n) os then none else before)
      ≡ (if pool == n then none else before)
all_deleted pool n os before shown = elim (Bool-cases (pool == n)) [
  | inr g ↦ rw g refl
  | inl g ↦ elim (Bool-cases (any (λ (o : IpAddressPool). o.name == n) os)) [
    | inl f ↦ rw (g, f) refl
    | inr f ↦ rw (g, f) (shown ∙ named_absent n os f)
  ]
]

module _ {W : Type 0} (namespace : String) (advs : Kind W BgpAdvertisementSpec)
    (pools : Kind W IpAddressPoolSpec) (find : W → String → Option IpAddressPool)
    (law : IsLawful pools cpem_labels namespace find)
    (patches : (o o' : BgpAdvertisement) → IsQuiet find (advs.patch o o'))
    (deletes : (o : BgpAdvertisement) → IsQuiet find (advs.delete o)) where
  withdraw_from-IsQuiet :
      (pool : String) (left i : ℕ) (adv : BgpAdvertisement)
      → IsQuiet find (withdraw_from advs pool left i adv)
  unfolding withdraw_from
  withdraw_from-IsQuiet pool zero i adv w = refl
  withdraw_from-IsQuiet pool (suc left) i adv w =
      let shorter = with_pools adv (remove_at i adv.spec.ip_address_pools) in
      elim (Bool-cases (element i adv.spec.ip_address_pools == pool)) [
        | inr e ↦ rw e (withdraw_from-IsQuiet pool left (suc i) adv w)
        | inl e ↦ elim (Bool-cases (ltb 1 (length adv.spec.ip_address_pools))) [
          | inl l ↦
              rw (e, l)
                (>>=-IsQuiet find
                  (wrapping "unable to update BGPAdvertisement" (advs.patch adv shorter))
                  (λ u. withdraw_from advs pool left (suc i) shorter) (patches adv shorter)
                  (λ u. withdraw_from-IsQuiet pool left (suc i) shorter) w)
          | inr l ↦
              rw (e, l)
                (>>=-IsQuiet find (wrapping "unable to delete BGPPeer" (advs.delete adv))
                  (λ u. withdraw_from advs pool left (suc i) adv) (deletes adv)
                  (λ u. withdraw_from-IsQuiet pool left (suc i) adv) w)
        ]
      ]

  withdraw-IsQuiet :
      (pool : String) (listed : List BgpAdvertisement) → IsQuiet find (withdraw advs pool listed)
  unfolding withdraw
  withdraw-IsQuiet pool [] w = refl
  withdraw-IsQuiet pool (adv ∷ rest) w = elim (Bool-cases (adv.name == default_bgp_advertisement)) [
    | inl e ↦ rw e (withdraw_from-IsQuiet pool (length adv.spec.ip_address_pools) 0 adv w)
    | inr e ↦ rw e (withdraw-IsQuiet pool rest w)
  ]

  delete_pools_lem :
      (pool : String) (os : List IpAddressPool) (w w' : W)
      → delete_pools advs pools pool os w ≡ (ok tt, w')
      → (n : String)
      → find w' n ≡ (if (pool == n) && any (λ o. o.name == n) os then none else find w n)
  unfolding delete_pools
  delete_pools_lem pool [] w w' h n =
      ap (λ (p : Result Unit × W). find p.1 n) (sym h) ∙ kept (pool == n)
  delete_pools_lem pool (o ∷ os) w w' h n = elim (Bool-cases (o.name == pool)) [
    | inl e ↦
        let (u, w₁, done, rest) =
          >>=-eq-ok (wrapping "unable to delete pool" (pools.delete o)) _ w (rw e at h) in
        let step =
          law.find-delete o w w₁ (wrapping-eq-ok "unable to delete pool" (pools.delete o) w done)
            n in
        let later = delete_pools_lem pool os w₁ w' rest n in
        later
        ∙ deleted o.name pool n (any (λ (o : IpAddressPool). o.name == n) os) (find w n) e step
    | inr e ↦
        let later = delete_pools_lem pool os w w' (rw e at h) n in
        later ∙ spared o.name pool n (any (λ (o : IpAddressPool). o.name == n) os) (find w n) e
  ]

  listed :
      (os : List IpAddressPool) (w : W)
      → list_pools advs pools namespace w ≡ ok os
      → pools.list cpem_labels namespace w ≡ ok os
  unfolding list_pools
  listed os w e =
      wrap-eq-ok "unable to retrieve a list of IPAddressPools" (pools.list cpem_labels namespace w)
        e

  withdrawn :
      (pool : String) (w w' : W)
      → ◌≡◌ {A = Result (Unit {0}) × W}
          (elim (list_advertisements advs namespace w) [
            | err e ↦ (err e, w)
            | ok advertisements ↦ withdraw advs pool advertisements w
          ])
          (ok tt, w')
      → (n : String) → find w' n ≡ find w n
  withdrawn pool w w' h n = elim (Result-cases (list_advertisements advs namespace w)) [
    | inl (x, f) ↦ ok-ne-err (ap (λ (r : Result Unit × W). r.0) (rw f at h))
    | inr (advertisements, f) ↦
        ap (λ (r : Result Unit × W). find r.1 n) (sym (rw f at h))
        ∙ ap (λ g. g n) (withdraw-IsQuiet pool advertisements w)
  ]

  -- Over a lawful API, in which calls on advertisements leave the pools:
  -- RemoveAddressPool, when it succeeds, of a pool with a name: no pool of that name is left in the
  -- cluster, and every other pool is as it was.
  pub remove_address_pool_lem :
      (pool : String) (w w' : W)
      → (pool == "") ≡ false
      → remove_address_pool advs pools namespace pool w ≡ (ok tt, w')
      → (n : String) → find w' n ≡ (if pool == n then none else find w n)
  unfolding remove_address_pool
  remove_address_pool_lem pool w w' named h n =
      elim (Result-cases (list_pools advs pools namespace w)) [
        | inl (x, e) ↦
            ok-ne-err (ap (λ (r : Result Unit × W). r.0) (rw (named, e, remove_address_pool) at h))
        | inr (os, e) ↦
            let (u, w₁, done, rest) =
              >>=-eq-ok (delete_pools advs pools pool os) _ w
                (rw (named, e, remove_address_pool) at h) in
            withdrawn pool w₁ w' rest n
            ∙ delete_pools_lem pool os w w₁ done n
            ∙ all_deleted pool n os (find w n) (law.find-list w os (listed os w e) n)
      ]
