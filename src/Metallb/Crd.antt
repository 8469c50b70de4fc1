-- ===== src/Metallb/Crd.antt =====
-- cherry/loadbalancers/metallb/crd.go: the configurer that keeps MetalLB's objects in step with the
-- services.
pub mod Peers
pub mod Configured
pub mod Pools
use cloud_provider_cherry.Prelude.{
  ℕ, ◌+◌, ◌<◌, String, ◌<>◌, Bool, true, false, not, ◌&&◌, ◌||◌, Option, none, some, List, [], ◌∷◌,
  ◌++◌, map, ◌==◌, ◌!=◌, string_eq, nat_eq, bool_eq, if◌then◌else◌, ltb, Labels, insert, erase,
  contains, length, has_prefix, trim_prefix, sort_strings,
}
use cloud_provider_cherry.Effect.{
  Error, Result, ok, err, wrap, Action, pure, lift, wrapping, ◌>>=◌, ◌>>◌,
}
use cloud_provider_cherry.Metallb.Resource.{Resource}
use cloud_provider_cherry.Metallb.Services.{add_service, remove_service}
use cloud_provider_cherry.Metallb.Config as Config
use cloud_provider_cherry.Metallb.Config.{
  items, SelectorRequirements, NodeSelector, Peer, AddressPool,
}
use cloud_provider_cherry.Metallb.Api.{
  MatchExpression, ApiSelector, BgpPeerSpec, IpAddressPoolSpec, BgpAdvertisementSpec, BgpPeer,
  IpAddressPool, BgpAdvertisement, Object, Kind, api_selector,
}

abbrev pub cpem_label_key : String
cpem_label_key = "cloud-provider"

abbrev pub cpem_label_value : String
cpem_label_value = "equinix-metal"

-- The labels by which the objects of the configurer are listed.
abbrev pub cpem_labels : Labels
cpem_labels = (cpem_label_key, cpem_label_value) ∷ []

abbrev pub default_bgp_advertisement : String
default_bgp_advertisement = "equinix-metal-bgp-adv"

abbrev pub svc_label_key_prefix : String
svc_label_key_prefix = "service-"

abbrev svc_label_value_prefix : String
svc_label_value_prefix = "namespace-"

-- serviceLabelKey and serviceLabelValue
unfoldable pub service_label_key : String → String
service_label_key svc_name = svc_label_key_prefix <> svc_name

unfoldable pub service_label_value : String → String
service_label_value svc_namespace = svc_label_value_prefix <> svc_namespace

-- convertToMatchExpressions and convertToNodeSelectors
unfoldable pub convert_expression : SelectorRequirements → MatchExpression
convert_expression l = record { key = l.key; operator = l.operator; values = items l.values }

unfoldable pub convert_selector : NodeSelector → ApiSelector
unfolding convert_expression
convert_selector l = record {
  match_labels = items l.match_labels;
  match_expressions = map convert_expression (items l.match_expressions);
}

-- convertToBGPPeer, of a parser of durations: its value is zero where the text is no duration.
unfoldable pub convert_to_bgp_peer : (String → ℕ) → Peer → String → BgpPeer
unfolding convert_selector
convert_to_bgp_peer parse_duration peer namespace = record {
  name = peer.name;
  namespace = namespace;
  labels = (cpem_label_key, cpem_label_value) ∷ [];
  spec = record {
    my_asn = peer.my_asn;
    asn = peer.asn;
    address = peer.addr;
    src_address = peer.src_addr;
    port = peer.port;
    hold_time = parse_duration peer.hold_time;
    router_id = "";
    node_selectors = map convert_selector peer.node_selectors;
    password = peer.password;
    ebgp_multi_hop = peer.ebgp_multi_hop;
  };
}

-- convertToIPAddr; the map is built from two entries, of which the second wins if the keys agree.
unfoldable pub convert_to_ip_addr : AddressPool → String → Resource → IpAddressPool
unfolding service_label_key service_label_value
convert_to_ip_addr addr namespace svc = record {
  name = addr.name;
  namespace = namespace;
  labels =
      insert (service_label_key svc.name) (service_label_value svc.namespace)
        ((cpem_label_key, cpem_label_value) ∷ []);
  spec = record {
    addresses = addr.addresses;
    auto_assign = addr.auto_assign;
    avoid_buggy_ips = addr.avoid_buggy_ips;
  };
}

-- peerAddService and peerRemoveService
unfoldable pub peer_add_service : Resource → BgpPeer → BgpPeer × Bool
peer_add_service svc p =
    let (selectors, changed) = add_service svc p.spec.node_selectors in
    (record p { spec = record (p.spec) { node_selectors = selectors } }, changed)

unfoldable pub peer_remove_service : Resource → BgpPeer → BgpPeer × Bool × ℕ
peer_remove_service svc p =
    let (selectors, found, size) = remove_service svc p.spec.node_selectors in
    (record p { spec = record (p.spec) { node_selectors = selectors } }, found, size)

-- peerSpecEqual
unfoldable pub peer_spec_equal : BgpPeerSpec → BgpPeerSpec → Bool
peer_spec_equal p o =
    if p.my_asn != o.my_asn
      || p.asn != o.asn
      || p.address != o.address
      || p.port != o.port
      || p.hold_time != o.hold_time
      || p.password != o.password
      || p.router_id != o.router_id
    then false
    else true
