-- ===== src/Metallb/Crd/Pools.antt =====
-- The address pools of crd.go: AddAddressPool and RemoveAddressPool, with the default
-- BGPAdvertisement that names the pools.
pub mod Laws
pub mod Adding
use cloud_provider_cherry.Prelude.{
  ℕ, zero, suc, ◌+◌, ◌-◌, String, Bool, true, false, not, ◌&&◌, ◌||◌, Option, none, some, List, [],
  ◌∷◌, ◌++◌, ◌==◌, ◌!=◌, string_eq, nat_eq, if◌then◌else◌, ltb, Labels, insert, contains, length,
  has_prefix, trim_prefix, sort_strings,
}
use cloud_provider_cherry.Effect.{
  Error, Result, ok, err, wrap, Action, pure, lift, wrapping, ◌>>=◌, ◌>>◌,
}
use cloud_provider_cherry.Metallb.Resource.{Resource}
use cloud_provider_cherry.Metallb.Config.{AddressPool}
use cloud_provider_cherry.Metallb.Api.{
  IpAddressPoolSpec, IpAddressPool, BgpAdvertisementSpec, BgpAdvertisement, Object, Kind,
}
use cloud_provider_cherry.Metallb.Crd.{
  default_bgp_advertisement, svc_label_key_prefix, cpem_label_key, cpem_label_value, cpem_labels,
  service_label_key, service_label_value, convert_to_ip_addr,
}

-- Lines 166 to 174: a label of the pool names this service.
unfoldable pub has_service : String → Labels → Bool
has_service svc_name [] = false
has_service svc_name ((k, v) ∷ labels) =
    (has_prefix k svc_label_key_prefix && (trim_prefix k svc_label_key_prefix == svc_name))
    || has_service svc_name labels

-- Lines 178 to 183: an added address is one of the pool's.
unfoldable pub shares_address : List String → List String → Bool
shares_address [] old = false
shares_address (a ∷ added) old = contains a old || shares_address added old

-- slices.Compact: of equal neighbours, the first.
unfoldable pub drop_same : String → List String → List String
drop_same x [] = []
drop_same x (y ∷ ys) = let rest = drop_same y ys in if x == y then rest else y ∷ rest

unfoldable pub compact : List String → List String
unfolding drop_same
compact [] = []
compact (x ∷ xs) = x ∷ drop_same x xs

unfoldable pub blanks : ℕ → List String
blanks zero = []
blanks (suc n) = "" ∷ blanks n

-- Lines 192 to 195: Compact writes into the array of `addresses` and clears its tail, and the slice
-- of the full length is what is kept.
unfoldable pub merge_addresses : List String → List String → List String
unfolding compact blanks
merge_addresses old added =
    let addresses = sort_strings (old ++ added) in
    compact addresses ++ blanks (length addresses - length (compact addresses))

-- Lines 187 to 196: a pool of the cluster, updated.
unfoldable pub update_pool : Resource → Bool → Bool → IpAddressPool → IpAddressPool → IpAddressPool
unfolding merge_addresses
update_pool svc update_labels update_addresses add o = record o {
  labels =
      if update_labels
      then insert (service_label_key svc.name) (service_label_value svc.namespace) o.labels
      else o.labels;
  spec =
      if update_addresses
      then record (o.spec) { addresses = merge_addresses o.spec.addresses add.spec.addresses }
      else o.spec;
}

-- The default advertisement with one pool.
unfoldable pub default_advertisement : String → String → BgpAdvertisement
default_advertisement namespace pool = record {
  name = default_bgp_advertisement;
  namespace = namespace;
  labels = (cpem_label_key, cpem_label_value) ∷ [];
  spec = record { ip_address_pools = pool ∷ [] };
}

unfoldable pub with_pools : BgpAdvertisement → List String → BgpAdvertisement
with_pools adv pools = record adv { spec = record { ip_address_pools = pools } }

-- slices.Delete(l, i, i+1)
unfoldable pub remove_at : ℕ → List String → List String
remove_at i [] = []
remove_at zero (x ∷ xs) = xs
remove_at (suc i) (x ∷ xs) = x ∷ remove_at i xs

-- The element at an index that was in range when the loop began: Delete clears what it frees.
unfoldable pub element : ℕ → List String → String
element i [] = ""
element zero (x ∷ xs) = x
element (suc i) (x ∷ xs) = element i xs

module _ {W : Type 0} (advs : Kind W BgpAdvertisementSpec) where
  unfoldable pub list_advertisements : String → W → Result (List BgpAdvertisement)
  list_advertisements namespace w =
      wrap "unable to retrieve a list of BGPAdvertisements" (advs.list cpem_labels namespace w)

  -- Lines 228 to 237: every listed advertisement of the default name is patched.
  unfoldable pub extend_advertisements : String → List BgpAdvertisement → Action W Unit
  unfolding with_pools
  extend_advertisements pool [] = pure tt
  extend_advertisements pool (adv ∷ rest) =
      if adv.name == default_bgp_advertisement
      then (do
        wrapping "unable to update BGPAdvertisement"
            (advs.patch adv (with_pools adv (adv.spec.ip_address_pools ++ (pool ∷ []))))
        extend_advertisements pool rest)
      else extend_advertisements pool rest

  -- Lines 213 to 238: the advertisement of a new pool.
  unfoldable pub advertise : String → String → Action W Unit
  unfolding default_advertisement extend_advertisements
  advertise namespace pool w = elim (list_advertisements namespace w) [
    | err e ↦ (err e, w)
    | ok [] ↦
        wrapping "unable to add default BGPAdvertisement"
          (advs.create (default_advertisement namespace pool)) w
    | ok (adv ∷ rest) ↦ extend_advertisements pool (adv ∷ rest) w
  ]

  -- The loop of lines 271 to 289, from index `i` on, with `left` rounds to go.
  unfoldable pub withdraw_from : String → (left i : ℕ) → BgpAdvertisement → Action W Unit
  unfolding element with_pools remove_at
  withdraw_from pool zero i adv = pure tt
  withdraw_from pool (suc left) i adv =
      let shorter = with_pools adv (remove_at i adv.spec.ip_address_pools) in
      if element i adv.spec.ip_address_pools == pool
      then (if ltb 1 (length adv.spec.ip_address_pools)
          then (do
            wrapping "unable to update BGPAdvertisement" (advs.patch adv shorter)
            withdraw_from pool left (suc i) shorter)
          else (do
            wrapping "unable to delete BGPPeer" (advs.delete adv)
            withdraw_from pool left (suc i) adv))
      else withdraw_from pool left (suc i) adv

  -- Lines 269 to 292: the first listed advertisement of the default name.
  unfoldable pub withdraw : String → List BgpAdvertisement → Action W Unit
  unfolding withdraw_from
  withdraw pool [] = pure tt
  withdraw pool (adv ∷ rest) =
      if adv.name == default_bgp_advertisement
      then withdraw_from pool (length adv.spec.ip_address_pools) 0 adv
      else withdraw pool rest

  module _ (pools : Kind W IpAddressPoolSpec) where
    unfoldable pub list_pools : String → W → Result (List IpAddressPool)
    list_pools namespace w =
        wrap "unable to retrieve a list of IPAddressPools" (pools.list cpem_labels namespace w)

    -- The loop over the pools of the cluster, and what follows when none of them matches.
    unfoldable pub visit_pools :
        Resource → IpAddressPool → List IpAddressPool → Action W Bool → Action W Bool
    unfolding has_service shares_address update_pool
    visit_pools svc add [] create = create
    visit_pools svc add (o ∷ os) create =
        let named = o.name == add.name in
        let shared = shares_address add.spec.addresses o.spec.addresses in
        if named && has_service svc.name o.labels
        then pure false
        else if named || shared
        then (do
          wrapping "unable to update IPAddressPool"
              (pools.patch o (update_pool svc named shared add o))
          pure true)
        else visit_pools svc add os create

    unfoldable pub create_pool : String → IpAddressPool → Action W Bool
    unfolding advertise
    create_pool namespace add = do
      wrapping "unable to add IPAddressPool" (pools.create add)
      advertise namespace add.name
      pure true

    unfoldable pub add_address_pool : String → Option AddressPool → Resource → Action W Bool
    unfolding visit_pools create_pool
    add_address_pool namespace none svc w = (ok false, w)
    add_address_pool namespace (some add) svc w =
        let pool = convert_to_ip_addr add namespace svc in
        elim (wrap "retrieve a list of IPAddressPools" (list_pools namespace w)) [
          | err e ↦ (err e, w)
          | ok olds ↦ visit_pools svc pool olds (create_pool namespace pool) w
        ]

    -- Lines 254 to 261: every listed pool of the name is deleted.
    unfoldable pub delete_pools : String → List IpAddressPool → Action W Unit
    delete_pools pool [] = pure tt
    delete_pools pool (o ∷ os) =
        if o.name == pool
        then (do wrapping "unable to delete pool" (pools.delete o); delete_pools pool os)
        else delete_pools pool os

    unfoldable pub remove_address_pool : String → String → Action W Unit
    unfolding delete_pools withdraw
    remove_address_pool namespace pool w =
        if pool == "" then (ok tt, w) else elim (list_pools namespace w) [
          | err e ↦ (err e, w)
          | ok olds ↦
              (do
                delete_pools pool olds
                (λ w'. elim (list_advertisements namespace w') [
                  | err e ↦ (err e, w')
                  | ok listed ↦ withdraw pool listed w'
                ]))
                w
        ]
