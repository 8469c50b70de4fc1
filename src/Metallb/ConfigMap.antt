-- ===== src/Metallb/ConfigMap.antt =====
-- cherry/loadbalancers/metallb/configmap.go: the configurer that keeps the configuration file in a
-- config map. Its operations on services and pools repeat those of config.go, which are used here.
-- A method is none where it panics, on a configuration that was not read.
pub mod Refined
pub mod Stored
use cloud_provider_cherry.Prelude.{
  String, Bool, true, false, Option, none, some, List, [], ◌∷◌, ◌==◌, string_eq, if◌then◌else◌,
  Labels, index,
}
use cloud_provider_cherry.Effect.{Result, ok, err, Action, wrap, wrapping, lift, pure, ◌>>=◌}
use cloud_provider_cherry.Metallb.Resource.{Resource}
use cloud_provider_cherry.Metallb.Config.{Peer, AddressPool, ConfigFile}
use cloud_provider_cherry.Metallb.Config.Changes.{serve_peer}
use cloud_provider_cherry.Metallb.Config.Peers
use cloud_provider_cherry.Metallb.Config.Pools

-- The calls of ConfigMapInterface: the data of a config map, and a JSON merge patch whose only key
-- is "data", given by the entries of that object.
pub record ConfigMaps (W : Type 0) : Type 0 where
  pub get : String → Action W Labels
  pub patch : String → Labels → Action W Unit

-- yaml.Marshal and yaml.Unmarshal at a configuration; a nil pointer can be marshalled.
pub record Yaml : Type 0 where
  pub marshal : Option ConfigFile → Result String
  pub unmarshal : String → Result ConfigFile

pub record CmConfigurer : Type 0 where
  pub namespace : String
  pub config_map_name : String
  pub config : Option ConfigFile

unfoldable pub parse_config : Yaml → String → Result ConfigFile
parse_config yaml text = wrap "could not parse config" (yaml.unmarshal text)

module _ {W : Type 0} (maps : ConfigMaps W) (yaml : Yaml) where
  unfoldable pub get_config_map : CmConfigurer → Action W ConfigFile
  unfolding parse_config
  get_config_map m =
      wrapping "unable to get metallb configmap" (maps.get m.config_map_name)
      >>= λ (values : Labels). lift (parse_config yaml (index values "config"))

  -- Get, after which the configuration is nil beside an error.
  abbrev got : CmConfigurer → Result ConfigFile → Result (Unit {0}) × CmConfigurer
  got m (ok config) = (ok tt, record m { config = some config })
  got m (err e) = (err e, record m { config = none })

  unfoldable pub get : CmConfigurer → W → (Result (Unit {0}) × CmConfigurer) × W
  unfolding get_config_map
  get m w = let (r, w₁) = get_config_map m w in (got m r, w₁)

  unfoldable pub update : CmConfigurer → Action W Unit
  update m =
      lift (wrap "error converting configfile data to bytes" (yaml.marshal m.config))
      >>= λ (text : String). maps.patch m.config_map_name (("config", text) ∷ [])

-- UpdatePeersByService: its loop over the peers to add, and the method, which reads no configuration
-- when there are none.
unfoldable pub serve_all : Resource → List Peer → List Peer → List Peer
unfolding serve_peer
serve_all svc [] ps = ps
serve_all svc (add ∷ adds) ps = serve_all svc adds (serve_peer svc add ps)

unfoldable pub update_peers_by_service :
    List Peer → Resource → CmConfigurer → Option (CmConfigurer × Bool)
unfolding serve_all
update_peers_by_service [] svc m = some (m, false)
update_peers_by_service (add ∷ adds) svc m = elim m.config [
  | none ↦ none
  | some cfg ↦
      let peers = serve_all svc (add ∷ adds) cfg.peers in
      some (record m { config = some (record cfg { peers = peers }) }, true)
]

unfoldable pub remove_peers_by_service : Resource → CmConfigurer → Option (CmConfigurer × Bool)
unfolding Peers.remove_peers_by_service
remove_peers_by_service svc m = elim m.config [
  | none ↦ none
  | some cfg ↦
      let (after, changed) = Peers.remove_peers_by_service svc cfg in
      some (record m { config = some after }, changed)
]

unfoldable pub add_address_pool : Option AddressPool → CmConfigurer → Option (CmConfigurer × Bool)
unfolding Pools.add_address_pool
add_address_pool none m = some (m, false)
add_address_pool (some add) m = elim m.config [
  | none ↦ none
  | some cfg ↦ elim (Pools.add_address_pool (some add) cfg) [
    | none ↦ none
    | some (after, changed) ↦ some (record m { config = some after }, changed)
  ]
]

unfoldable pub remove_address_pool_by_address : String → CmConfigurer → Option CmConfigurer
unfolding Pools.remove_address_pool_by_address
remove_address_pool_by_address addr m = if addr == "" then some m else elim m.config [
  | none ↦ none
  | some cfg ↦ some (record m { config = some (Pools.remove_address_pool_by_address addr cfg) })
]

-- RemoveAddressPool, which does nothing.
unfoldable pub remove_address_pool : String → CmConfigurer → CmConfigurer
remove_address_pool pool m = m
