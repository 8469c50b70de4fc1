-- ===== src/Tests/Frr.antt =====
-- The peers of nodes in FRR mode, at concrete nodes.
use cloud_provider_cherry.Prelude.{
  ◌≤◌, String, ◌≡◌, refl, some, List, [], ◌∷◌, ◌==◌, string_eq, length, filter, map, sort,
  format_nat, insert, to_lower,
}
use cloud_provider_cherry.LoadBalancers.{Node}
use cloud_provider_cherry.Metallb.Config.{Peer, NodeSelector}
use cloud_provider_cherry.Metallb.Peers.{peers_from_nodes_frr}
use cloud_provider_cherry.Metallb.Peers.Names.{frr_name_once}

abbrev no_selector : NodeSelector
no_selector = record { match_labels = some []; match_expressions = some [] }

abbrev node : String → Node
node name = record {
  name = name;
  region = "LT-Siauliai";
  local_asn = 65000;
  peer_asn = 65530;
  source_ip = "10.0.0.1";
  password = "";
  peers =
      record { address = "10.1.0.1"; port = 179 }
      ∷ record { address = "10.1.0.2"; port = 179 }
      ∷ [];
}

abbrev nodes : List Node
nodes = node "node-1" ∷ node "node-2" ∷ []

-- Two nodes of a region, with two peers each, have two peers together.
two_peers :
    map (λ (p : Peer). p.name) (peers_from_nodes_frr no_selector nodes)
    ≡ "lt-siauliai-0" ∷ "lt-siauliai-1" ∷ []
unfolding peers_from_nodes_frr sort insert to_lower format_nat
two_peers = refl

frr_name_once_example :
    length
      (filter (λ (p : Peer). p.name == "lt-siauliai-0") (peers_from_nodes_frr no_selector nodes))
    ≤ 1
frr_name_once_example = frr_name_once no_selector nodes "lt-siauliai-0"
