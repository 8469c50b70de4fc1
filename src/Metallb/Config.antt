-- ===== src/Metallb/Config.antt =====
-- The data types of cherry/loadbalancers/metallb/config.go. A pointer to a value is an `Option`, and so
-- is a slice or a map that the code tells nil from empty. The
-- fields of type uint32 and uint16 hold numbers below 2^32 and 2^16.
pub mod Peers
pub mod Compare
pub mod Pools
pub mod Requirements
pub mod Selectors
pub mod Changes
use cloud_provider_cherry.Prelude.{ℕ, String, refl, Bool, Option, none, some, List, [], Labels}
use cloud_provider_cherry.Metallb.Services.{Selector}

-- The elements of a slice or a map that may be nil.
abbrev pub items {ℓ} : {A : Type ℓ} → Option (List A) → List A
items none = []
items (some xs) = xs

pub record SelectorRequirements : Type 0 where
  pub key : String
  pub operator : String
  pub values : Option (List String)

pub record NodeSelector : Type 0 where
  pub match_labels : Option Labels
  pub match_expressions : Option (List SelectorRequirements)

abbrev of_labels : Labels → NodeSelector
of_labels m = record { match_labels = some m; match_expressions = none }

instance abbrev pub node_selector : Selector NodeSelector
node_selector = record {
  match_labels = λ s. items s.match_labels;
  of_labels = of_labels;
  match_labels-of_labels = λ m. refl;
}

pub record Peer : Type 0 where
  pub my_asn : ℕ
  pub asn : ℕ
  pub addr : String
  pub port : ℕ
  pub src_addr : String
  pub hold_time : String
  pub router_id : String
  pub node_selectors : List NodeSelector
  pub password : String
  pub ebgp_multi_hop : Bool
  pub name : String

-- The lengths are natural numbers here; the int of the source is never negative in a valid config.
pub record BgpAdvertisement : Type 0 where
  pub aggregation_length : Option ℕ
  pub local_pref : Option ℕ
  pub communities : List String

pub record AddressPool : Type 0 where
  pub protocol : String
  pub name : String
  pub addresses : List String
  pub avoid_buggy_ips : Bool
  pub auto_assign : Option Bool
  pub bgp_advertisements : List BgpAdvertisement

pub record ConfigFile : Type 0 where
  pub peers : List Peer
  pub bgp_communities : Labels
  pub pools : List AddressPool
