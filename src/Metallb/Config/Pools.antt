-- ===== src/Metallb/Config/Pools.antt =====
-- The address pools of the configuration file: AddAddressPool, RemoveAddressPool and
-- RemoveAddressPoolByAddress of cherry/loadbalancers/metallb/config.go. The first two are none where
-- a comparison panics.
pub mod Names
pub mod Adding
pub mod Plain
use Prim.Native.Char.{code}
use cloud_provider_cherry.Prelude.{
  String, ◌<>◌, Bool, true, false, not, Option, none, some, List, [], ◌∷◌, ◌++◌, ◌==◌, ◌!=◌,
  string_eq, nat_eq, if◌then◌else◌, filter, contains, sort_strings, sort,
}
use cloud_provider_cherry.Metallb.Config.{AddressPool, ConfigFile}
use cloud_provider_cherry.Metallb.Config.Compare.{equal, equal_ignore_name}

-- configmap.go
abbrev pub name_joiner : String
name_joiner = ","

-- `strings.Split(name, nameJoiner)`
unfoldable pub split_names : String → List String
split_names String.[] = "" ∷ []
split_names (String.◌∷◌ c s) =
    let rest = split_names s in
    if code c == b','
    then "" ∷ rest
    else elim rest [ [] ↦ [] | name ∷ names ↦ String.◌∷◌ c name ∷ names ]

-- `strings.Join(names, nameJoiner)`
unfoldable pub join_names : List String → String
join_names [] = ""
join_names (name ∷ names) = elim names [
  | [] ↦ name
  | other ∷ others ↦ name <> name_joiner <> join_names names
]

abbrev pub with_name : AddressPool → String → AddressPool
with_name pool name = record pool { name = name }

-- The pool of other name that takes over an added name, and whether it did.
unfoldable pub merge_name : AddressPool → String → AddressPool × Bool
unfolding split_names join_names sort
merge_name pool name =
    let existing = split_names pool.name in
    if contains name existing
    then (pool, false)
    else (with_name pool (join_names (sort_strings (existing ++ name ∷ []))), true)

-- The loop of AddAddressPool, and the pools after it.
unfoldable pub add_to_pools : AddressPool → List AddressPool → Option (List AddressPool × Bool)
unfolding merge_name
add_to_pools add [] = some (add ∷ [], true)
add_to_pools add (pool ∷ pools) = elim (equal pool add) [
  | none ↦ none
  | some (same, pool₁, add₁) ↦
      if same then some (pool₁ ∷ pools, false) else elim (equal_ignore_name pool₁ add₁) [
        | none ↦ none
        | some (alike, pool₂, add₂) ↦
            if alike
            then (let (merged, changed) = merge_name pool₂ add₂.name in
                some (merged ∷ pools, changed))
            else elim (add_to_pools add₂ pools) [
              | none ↦ none
              | some (others, changed) ↦ some (pool₂ ∷ others, changed)
            ]
      ]
]

unfoldable pub add_address_pool : Option AddressPool → ConfigFile → Option (ConfigFile × Bool)
unfolding add_to_pools
add_address_pool none cfg = some (cfg, false)
add_address_pool (some add) cfg = elim (add_to_pools add cfg.pools) [
  | none ↦ none
  | some (pools, changed) ↦ some (record cfg { pools = pools }, changed)
]

-- The loop of RemoveAddressPool: equal pools go, and pools of other name lose the name.
unfoldable pub remove_from_pools : AddressPool → List AddressPool → Option (List AddressPool)
unfolding split_names join_names sort
remove_from_pools remove [] = some []
remove_from_pools remove (pool ∷ pools) = elim (equal pool remove) [
  | none ↦ none
  | some (same, pool₁, remove₁) ↦
      if same then remove_from_pools remove₁ pools else elim (equal_ignore_name pool₁ remove₁) [
        | none ↦ none
        | some (alike, pool₂, remove₂) ↦
            let names = filter (λ (name : String). name != remove₂.name) (split_names pool₂.name) in
            let kept = if alike then with_name pool₂ (join_names (sort_strings names)) else pool₂ in
            elim (remove_from_pools remove₂ pools) [
              | none ↦ none
              | some others ↦ some (kept ∷ others)
            ]
      ]
]

unfoldable pub remove_address_pool : Option AddressPool → ConfigFile → Option ConfigFile
unfolding remove_from_pools
remove_address_pool none cfg = some cfg
remove_address_pool (some remove) cfg = elim (remove_from_pools remove cfg.pools) [
  | none ↦ none
  | some pools ↦ some (record cfg { pools = pools })
]

-- RemoveAddressPoolByAddress
unfoldable pub remove_address_pool_by_address : String → ConfigFile → ConfigFile
remove_address_pool_by_address addr cfg = if addr == "" then cfg else record cfg {
  pools = filter (λ (pool : AddressPool). not (contains addr pool.addresses)) cfg.pools;
}
