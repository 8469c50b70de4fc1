-- ===== src/Metallb/Config/Compare.antt =====
-- The comparisons of address pools of the configuration file, of cherry/loadbalancers/metallb/config.go. Go's
-- slices `a[:]` share their elements with `a`, so that the comparisons sort what they compare: they
-- return both sides as they leave them. They are none where the source panics: it follows a nil
-- pointer or an index out of range.
use cloud_provider_cherry.Prelude.{
  String, Bool, true, false, ◌||◌, ◌&&◌, list_eq, Option, none, some, List, [], ◌∷◌, ◌==◌, ◌!=◌,
  string_eq, nat_eq, bool_eq, if◌then◌else◌, ltb, text_lt, length, sort_strings, sort,
}
use mathlib.Core.List.{reverse}
use cloud_provider_cherry.Metallb.Config.{BgpAdvertisement, AddressPool}

-- What a comparison answers, and both sides after it.
abbrev pub Compared : Type 0 → Type 0
Compared A = Option (Bool × A × A)

-- The loop of BgpAdvertisements.Less over the communities.
unfoldable pub any_lower : List String → List String → Option Bool
any_lower [] others = some false
any_lower (v ∷ vs) [] = none
any_lower (v ∷ vs) (o ∷ os) = let rest = any_lower vs os in if text_lt v o then some true else rest

abbrev pub with_communities : BgpAdvertisement → List String → BgpAdvertisement
with_communities b communities = record b { communities = communities }

-- BgpAdvertisements.Less, of two elements; its last comparison, and the one before it.
unfoldable pub less_communities : BgpAdvertisement → BgpAdvertisement → Compared BgpAdvertisement
unfolding any_lower sort
less_communities x y =
    if ltb (length x.communities) (length y.communities)
    then some (true, x, y)
    else (let xs = sort_strings x.communities in
        let ys = sort_strings y.communities in
        elim (any_lower xs ys) [
          | none ↦ none
          | some lower ↦ some (lower, with_communities x xs, with_communities y ys)
        ])

unfoldable pub less_pref : BgpAdvertisement → BgpAdvertisement → Compared BgpAdvertisement
unfolding less_communities
less_pref x y = elim x.local_pref [
  | none ↦ none
  | some p ↦ elim y.local_pref [
    | none ↦ none
    | some q ↦ if ltb p q then some (true, x, y) else less_communities x y
  ]
]

unfoldable pub less_advertisement : BgpAdvertisement → BgpAdvertisement → Compared BgpAdvertisement
unfolding less_pref
less_advertisement x y = elim x.aggregation_length [
  | none ↦ none
  | some a ↦ elim y.aggregation_length [
    | none ↦ none
    | some b ↦ if ltb a b then some (true, x, y) else less_pref x y
  ]
]

-- sort.Sort by this comparison, as the insertion sort of Prelude/Sort: the sorted part is kept with
-- its last element at the head.
unfoldable pub sink_advertisement :
    BgpAdvertisement → List BgpAdvertisement → Option (List BgpAdvertisement)
unfolding less_advertisement
sink_advertisement x [] = some (x ∷ [])
sink_advertisement x (y ∷ ys) = elim (less_advertisement x y) [
  | none ↦ none
  | some (lower, x', y') ↦
      if lower
      then elim (sink_advertisement x' ys) [ none ↦ none | some zs ↦ some (y' ∷ zs) ]
      else some (x' ∷ y' ∷ ys)
]

unfoldable pub sort_from :
    List BgpAdvertisement → List BgpAdvertisement → Option (List BgpAdvertisement)
unfolding sink_advertisement
sort_from done [] = some (reverse done)
sort_from done (x ∷ xs) = elim (sink_advertisement x done) [
  | none ↦ none
  | some longer ↦ sort_from longer xs
]

unfoldable pub sort_advertisements : List BgpAdvertisement → Option (List BgpAdvertisement)
unfolding sort_from
sort_advertisements xs = sort_from [] xs

-- The loop of BgpAdvertisement.Equal over the sorted communities.
unfoldable pub begins_with : List String → List String → Option Bool
begins_with [] others = some true
begins_with (v ∷ vs) [] = none
begins_with (v ∷ vs) (o ∷ os) = let rest = begins_with vs os in if v != o then some false else rest

-- BgpAdvertisement.Equal, after its comparison of the numbers.
unfoldable pub equal_communities : BgpAdvertisement → BgpAdvertisement → Compared BgpAdvertisement
unfolding begins_with sort
equal_communities b o =
    let bs = sort_strings b.communities in
    let os = sort_strings o.communities in
    elim (begins_with bs os) [
      | none ↦ none
      | some same ↦ some (same, with_communities b bs, with_communities o os)
    ]

unfoldable pub equal_pref : BgpAdvertisement → BgpAdvertisement → Compared BgpAdvertisement
unfolding equal_communities
equal_pref b o = elim b.local_pref [
  | none ↦ none
  | some p ↦ elim o.local_pref [
    | none ↦ none
    | some q ↦ if p != q then some (false, b, o) else equal_communities b o
  ]
]

-- BgpAdvertisement.Equal
unfoldable pub equal_advertisement : BgpAdvertisement → BgpAdvertisement → Compared BgpAdvertisement
unfolding equal_pref
equal_advertisement b o = elim b.aggregation_length [
  | none ↦ none
  | some m ↦ elim o.aggregation_length [
    | none ↦ none
    | some n ↦ if m != n then some (false, b, o) else equal_pref b o
  ]
]

-- The loop of EqualIgnoreName over the sorted advertisements, of which there are equally many.
unfoldable pub equal_advertisements :
    List BgpAdvertisement → List BgpAdvertisement → Compared (List BgpAdvertisement)
unfolding equal_advertisement
equal_advertisements [] others = some (true, [], others)
equal_advertisements (b ∷ bs) [] = none
equal_advertisements (b ∷ bs) (o ∷ os) = elim (equal_advertisement b o) [
  | none ↦ none
  | some (same, b', o') ↦
      if same
      then elim (equal_advertisements bs os) [
        | none ↦ none
        | some (all_same, bs', os') ↦ some (all_same, b' ∷ bs', o' ∷ os')
      ]
      else some (false, b' ∷ bs, o' ∷ os)
]

abbrev pub with_advertisements : AddressPool → List BgpAdvertisement → AddressPool
with_advertisements a advertisements = record a { bgp_advertisements = advertisements }

abbrev pub with_addresses : AddressPool → List String → AddressPool
with_addresses a addresses = record a { addresses = addresses }

-- The last part of EqualIgnoreName: the advertisements.
unfoldable pub equal_bgp : AddressPool → AddressPool → Compared AddressPool
unfolding equal_advertisements sort_advertisements
equal_bgp a o =
    if length a.bgp_advertisements != length o.bgp_advertisements
    then some (false, a, o)
    else elim (sort_advertisements a.bgp_advertisements) [
      | none ↦ none
      | some bs ↦ elim (sort_advertisements o.bgp_advertisements) [
        | none ↦ none
        | some os ↦ elim (equal_advertisements bs os) [
          | none ↦ none
          | some (same, bs', os') ↦
              some (same, with_advertisements a bs', with_advertisements o os')
        ]
      ]
    ]

-- The part before it: the addresses.
unfoldable pub equal_addresses : AddressPool → AddressPool → Compared AddressPool
unfolding equal_bgp sort
equal_addresses a o =
    if length a.addresses != length o.addresses
    then some (false, a, o)
    else (let a' = with_addresses a (sort_strings a.addresses) in
        let o' = with_addresses o (sort_strings o.addresses) in
        if a'.addresses == o'.addresses then equal_bgp a' o' else some (false, a', o'))

-- AddressPool.EqualIgnoreName of a pool that is there.
unfoldable pub equal_ignore_name : AddressPool → AddressPool → Compared AddressPool
unfolding equal_addresses
equal_ignore_name a o =
    if a.protocol != o.protocol || a.avoid_buggy_ips != o.avoid_buggy_ips
    then some (false, a, o)
    else elim a.auto_assign [
      | none ↦ none
      | some m ↦ elim o.auto_assign [
        | none ↦ none
        | some n ↦ if m != n then some (false, a, o) else equal_addresses a o
      ]
    ]

-- AddressPool.Equal
unfoldable pub equal : AddressPool → AddressPool → Compared AddressPool
unfolding equal_ignore_name
equal a o = elim (equal_ignore_name a o) [
  | none ↦ none
  | some (same, a', o') ↦ some (same && a.name == o.name, a', o')
]
