-- ===== src/Controller/Nodes.antt =====
-- What cherry/loadbalancers.go does to nodes: their BGP, their annotations, and what the implementor
-- is told of them.
pub mod Described
pub mod Annotations
use cloud_provider_cherry.Prelude.{
  ℕ, ◌+◌, String, Option, none, some, List, [], ◌∷◌, map, ◌==◌, string_eq, if◌then◌else◌, text_lt,
  Labels, index, insert, sort, format_nat, replace_once, ◌≡◌, ap,
}
use cloud_provider_cherry.Effect.{
  Error, Result, message, ok, err, Action, pure, fail, wrapping, ◌>>=◌, ◌>>◌,
}
use cloud_provider_cherry.Bgp.{BgpPeer, NodeBgpInfo}
use cloud_provider_cherry.LoadBalancers.{Node}
use cloud_provider_cherry.Controller.{KubeNode, Templates, LoadBalancers}

-- nodeLabel and nodeRegion of a node that is there.
abbrev pub node_label : KubeNode → String → String
node_label n label = index n.labels label

unfoldable pub node_region : KubeNode → String
node_region n = node_label n "topology.kubernetes.io/region"

abbrev given_annotations : KubeNode → Labels
given_annotations node = elim node.annotations [ none ↦ [] | some annotations ↦ annotations ]

-- The name of an annotation of the i-th peer.
abbrev pub numbered : String → ℕ → String
numbered template i = replace_once template "{{n}}" (format_nat i)

-- One round of the loop over the peers.
unfoldable pub annotate_peer : Templates → NodeBgpInfo → ℕ → BgpPeer → Labels → Labels
unfolding insert format_nat replace_once
annotate_peer t info i peer annotations = insert (numbered t.multi_hop i) "true" (
    insert (numbered t.src_ip i) info.source_ip (
      insert (numbered t.peer_ip i) peer.address (
        insert (numbered t.peer_asn i) (format_nat info.remote_asn)
          (insert (numbered t.local_asn i) (format_nat info.local_asn) annotations))))

unfoldable pub annotate_peers : Templates → NodeBgpInfo → ℕ → List BgpPeer → Labels → Labels
unfolding annotate_peer
annotate_peers t info i [] annotations = annotations
annotate_peers t info i (peer ∷ peers) annotations =
    annotate_peers t info (i + 1) peers (annotate_peer t info i peer annotations)

unfoldable pub sort_peers : List BgpPeer → List BgpPeer
unfolding sort
sort_peers peers = sort (λ (p q : BgpPeer). text_lt p.address q.address) peers

-- The `switch` on the BGP information: the annotations after it.
unfoldable pub peer_annotations : Templates → NodeBgpInfo → Labels → Labels
unfolding annotate_peers sort_peers
peer_annotations t info annotations = annotate_peers t info 0 (sort_peers info.peers) annotations

-- What the implementor is told of a node.
unfoldable pub describe_node : KubeNode → NodeBgpInfo → Node
unfolding node_region
describe_node node info = record {
  name = node.name;
  source_ip = info.source_ip;
  local_asn = info.local_asn;
  peer_asn = info.remote_asn;
  password = "";
  peers = map (λ (p : BgpPeer). record { address = p.address; port = p.port }) info.peers;
  region = node_region node;
}

-- A call whose error is only logged.
abbrev pub attempt : {W A : Type 0} → Action W A → Action W (Option A)
attempt m w = let (r, w') = m w in elim r [ ok a ↦ (ok (some a), w') | err e ↦ (ok none, w') ]

pub attempt-of_err :
    {W A : Type 0} (m : Action W A) (w : W) {e : Error} {w' : W}
    → m w ≡ (err e, w')
    → attempt m w ≡ (ok none, w')
attempt-of_err {W} {A} m w h = ap (λ (r : Result A × W). attempt (λ (v : W). r) w) h

pub attempt-of_ok :
    {W A : Type 0} (m : Action W A) (w : W) {a : A} {w' : W}
    → m w ≡ (ok a, w')
    → attempt m w ≡ (ok (some a), w')
attempt-of_ok {W} {A} m w h = ap (λ (r : Result A × W). attempt (λ (v : W). r) w) h

module _ {W : Type 0} (l : LoadBalancers W) where
  -- The annotations are assigned to before the patch where the node has a map of them, since
  -- `annotations` is that map; without peers nothing is assigned.
  unfoldable pub share_annotations : KubeNode → NodeBgpInfo → Action W Unit
  unfolding peer_annotations
  share_annotations node info = elim node.annotations [
    | none ↦ pure tt
    | some old ↦ elim info.peers [
      | [] ↦ pure tt
      | peer ∷ peers ↦ l.calls.write_annotations node (peer_annotations l.templates info old)
    ]
  ]

  unfoldable pub annotate_node : KubeNode → Action W Unit
  unfolding peer_annotations share_annotations
  annotate_node node = do
    info ← wrapping "could not get BGP info for node" (l.ensure_node_bgp_enabled node.provider_id)
    share_annotations node info
    wrapping "failed to patch node with annotations"
        (l.calls.patch_node node.name (peer_annotations l.templates info (given_annotations node)))

  -- The loop of UpdateLoadBalancer.
  unfoldable pub nodes_to_update : List KubeNode → Action W (List Node)
  unfolding annotate_node describe_node
  nodes_to_update [] = pure []
  nodes_to_update (node ∷ nodes) =
      let rest = nodes_to_update nodes in
      if node.provider_id == ""
      then fail (message "no provider ID given for node, skipping")
      else (do
        found ← attempt (l.ensure_node_bgp_enabled node.provider_id)
        elim found [
          | none ↦ rest
          | some info ↦ do
            wrapping "failed to annotate node" (annotate_node node)
            others ← rest
            pure (describe_node node info ∷ others)
        ])

  -- The loop of addService.
  unfoldable pub nodes_to_add : List KubeNode → Action W (List Node)
  unfolding annotate_node describe_node
  nodes_to_add [] = pure []
  nodes_to_add (node ∷ nodes) =
      let rest = nodes_to_add nodes in
      if node.provider_id == "" then rest else (do
        found ← attempt (l.ensure_node_bgp_enabled node.provider_id)
        elim found [
          | none ↦ rest
          | some info ↦ do
            annotated ← attempt (annotate_node node)
            elim annotated [
              | none ↦ rest
              | some done ↦ do others ← rest; pure (describe_node node info ∷ others)
            ]
        ])
