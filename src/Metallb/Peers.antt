-- ===== src/Metallb/Peers.antt =====
-- cherry/loadbalancers/metallb/bgp_peers.go: the peers that a set of nodes calls for.
pub mod Names
pub mod Modes
use cloud_provider_cherry.Prelude.{
  ℕ, ◌+◌, ◌%◌, ◌^◌, String, ◌<>◌, Bool, true, false, Option, none, some, List, [], ◌∷◌, ◌++◌, map,
  ◌==◌, string_eq, if◌then◌else◌, Labels, insert, sort, text_lt, format_nat, to_lower, trim_prefix,
  trim_suffix,
}
use cloud_provider_cherry.LoadBalancers.{Node}
use cloud_provider_cherry.LoadBalancers as Lb
use cloud_provider_cherry.Metallb.Config.{items, SelectorRequirements, NodeSelector, Peer}

abbrev hostname_key : String
hostname_key = "kubernetes.io/hostname"

abbrev region_key : String
region_key = "topology.kubernetes.io/region"

abbrev hold_time : String
hold_time = "30s"

pub data BgpPeerMode : Type 0 where
  mode_none mode_native mode_frr : BgpPeerMode

-- BGPPeerMode.String, of the three modes there are.
unfoldable pub mode_string : BgpPeerMode → String
mode_string mode_none = "none"
mode_string mode_native = "native"
mode_string mode_frr = "frr"

-- Conversions of an int that is not negative to uint32 and uint16.
abbrev to_uint32 : ℕ → ℕ
to_uint32 n = n % 2 ^ 32

abbrev to_uint16 : ℕ → ℕ
to_uint16 n = n % 2 ^ 16

-- ParseConfigURL, of the URL's path and of its parameter bgp-peer-mode: the namespace, and the mode
-- unless the parameter is invalid.
unfoldable pub parse_config_url : String → String → String × Option BgpPeerMode
parse_config_url path raw_mode =
    let namespace = trim_suffix (trim_prefix path "/") "/" in
    if raw_mode == "native"
    then (namespace, some mode_native)
    else if raw_mode == "frr"
    then (namespace, some mode_frr)
    else if raw_mode == "none"
    then (namespace, some mode_none)
    else if raw_mode == ""
    then (namespace, some mode_native)
    else (namespace, none)

-- PeersFromNodesNone
unfoldable pub peers_from_nodes_none : List Node → List Peer
peers_from_nodes_none nodes = []

-- PeersFromNodesNative: the peers of one node, from its i-th on, and those of all nodes.
native_peer : Node → ℕ → Lb.Peer → Peer
native_peer node i peer = record {
  my_asn = to_uint32 node.local_asn;
  asn = to_uint32 node.peer_asn;
  addr = peer.address;
  port = to_uint16 peer.port;
  src_addr = node.source_ip;
  hold_time = hold_time;
  router_id = "";
  node_selectors =
      record { match_labels = some ((hostname_key, node.name) ∷ []); match_expressions = none }
      ∷ [];
  password = node.password;
  ebgp_multi_hop = false;
  name = node.name <> "-" <> format_nat i;
}

native_peers_from : Node → ℕ → List Lb.Peer → List Peer
native_peers_from node i [] = []
native_peers_from node i (p ∷ ps) = native_peer node i p ∷ native_peers_from node (i + 1) ps

unfoldable pub peers_from_nodes_native : List Node → List Peer
unfolding native_peers_from native_peer
peers_from_nodes_native [] = []
peers_from_nodes_native (node ∷ nodes) =
    native_peers_from node 0 node.peers ++ peers_from_nodes_native nodes

-- metav1.LabelSelector, of k8s.io/apimachinery.
pub record LabelSelector : Type 0 where
  pub match_labels : Option Labels
  pub match_expressions : List SelectorRequirements

-- convertToMetalLBNodeSelector: one requirement of it, which has the type of the source's own requirements here.
abbrev requirement : SelectorRequirements → SelectorRequirements
requirement req = record { key = req.key; operator = req.operator; values = req.values }

unfoldable pub convert_label_selector : LabelSelector → NodeSelector
convert_label_selector ls = record {
  match_labels = ls.match_labels;
  match_expressions = some (map requirement ls.match_expressions);
}

-- NodeSelector.Duplicate copies every label, requirement and value.
duplicate_requirement : SelectorRequirements → SelectorRequirements
duplicate_requirement s = record { key = s.key; operator = s.operator; values = s.values }

copy_labels : Labels → Labels → Labels
copy_labels copy [] = copy
copy_labels copy ((k, v) ∷ m) = copy_labels (insert k v copy) m

unfoldable pub duplicate_selector : NodeSelector → NodeSelector
unfolding duplicate_requirement copy_labels
duplicate_selector ns = record {
  match_labels = some (copy_labels [] (items ns.match_labels));
  match_expressions = some (map duplicate_requirement (items ns.match_expressions));
}

module _ (ns : NodeSelector) where
  -- NewPeersFromNodesFRRFunc: the selector of a node's region, and the i-th peer of a node.
  region_selector : Node → NodeSelector
  unfolding duplicate_selector
  region_selector node =
      let copy = duplicate_selector ns in
      record copy { match_labels = some (insert region_key node.region (items copy.match_labels)) }

  frr_peer : Node → ℕ → Lb.Peer → Peer
  unfolding region_selector
  frr_peer node i peer = record {
    my_asn = to_uint32 node.local_asn;
    asn = to_uint32 node.peer_asn;
    addr = peer.address;
    port = to_uint16 peer.port;
    src_addr = "";
    hold_time = hold_time;
    router_id = "";
    node_selectors = region_selector node ∷ [];
    password = "";
    ebgp_multi_hop = true;
    name = to_lower (node.region <> "-" <> format_nat i);
  }

  -- The two loops, which fill the map from names to peers.
  frr_add_peers : Node → ℕ → List Lb.Peer → List (String × Peer) → List (String × Peer)
  frr_add_peers node i [] peers = peers
  frr_add_peers node i (p ∷ ps) peers =
      let new = frr_peer node i p in frr_add_peers node (i + 1) ps (insert new.name new peers)

  frr_add_nodes : List Node → List (String × Peer) → List (String × Peer)
  frr_add_nodes [] peers = peers
  frr_add_nodes (node ∷ nodes) peers = frr_add_nodes nodes (frr_add_peers node 0 node.peers peers)

  -- The comparison by name of slices.SortedFunc.
  abbrev lower_name : Peer → Peer → Bool
  lower_name a b = text_lt a.name b.name

  unfoldable pub peers_from_nodes_frr : List Node → List Peer
  unfolding frr_add_nodes frr_add_peers frr_peer
  peers_from_nodes_frr nodes = sort lower_name (map (λ kv. kv.1) (frr_add_nodes nodes []))

-- NewPeersFromNodesFunc, of the three modes.
unfoldable pub new_peers_from_nodes : BgpPeerMode → LabelSelector → List Node → List Peer
unfolding convert_label_selector peers_from_nodes_none
new_peers_from_nodes mode_frr selector nodes =
    peers_from_nodes_frr (convert_label_selector selector) nodes
new_peers_from_nodes mode_native selector nodes = peers_from_nodes_native nodes
new_peers_from_nodes mode_none selector nodes = peers_from_nodes_none nodes
