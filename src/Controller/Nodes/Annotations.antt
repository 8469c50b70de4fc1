-- ===== src/Controller/Nodes/Annotations.antt =====
-- The annotations that annotateNode writes.
use cloud_provider_cherry.Prelude.{
  ℕ, ◌+◌, String, false, List, [], ◌∷◌, ◌≡◌, refl, ◌∙◌, ◌==◌, string_eq, Labels, lookup, insert,
  lookup-insert, All, format_nat,
}
use cloud_provider_cherry.Bgp.{BgpPeer, NodeBgpInfo}
use cloud_provider_cherry.Controller.{Templates}
use cloud_provider_cherry.Controller.Nodes.{
  numbered, annotate_peer, annotate_peers, sort_peers, peer_annotations,
}

-- The names of the annotations of the peers, from the i-th on.
abbrev pub annotation_names : Templates → ℕ → List BgpPeer → List String
annotation_names t i [] = []
annotation_names t i (peer ∷ peers) =
    numbered t.local_asn i
    ∷ numbered t.peer_asn i
    ∷ numbered t.peer_ip i
    ∷ numbered t.src_ip i
    ∷ numbered t.multi_hop i
    ∷ annotation_names t (i + 1) peers

abbrev pub IsOther : String → String → Type 0
IsOther key name = (name == key) ≡ false

lookup-insert_ne :
    (k j v : String) (m : Labels) → (k == j) ≡ false → lookup j (insert k v m) ≡ lookup j m
lookup-insert_ne k j v m h = rw (lookup-insert k j v m, h) refl

annotate_peers_keep :
    (t : Templates) (info : NodeBgpInfo) (i : ℕ) (peers : List BgpPeer) (m : Labels) (key : String)
    → All (IsOther key) (annotation_names t i peers)
    → lookup key (annotate_peers t info i peers m) ≡ lookup key m
unfolding annotate_peers annotate_peer
annotate_peers_keep t info i [] m key h = refl
annotate_peers_keep t info i (peer ∷ peers) m key (a, (b, (c, (d, (e, h))))) =
    annotate_peers_keep t info (i + 1) peers (annotate_peer t info i peer m) key h
    ∙ lookup-insert_ne (numbered t.multi_hop i) key "true" _ e
    ∙ lookup-insert_ne (numbered t.src_ip i) key info.source_ip _ d
    ∙ lookup-insert_ne (numbered t.peer_ip i) key peer.address _ c
    ∙ lookup-insert_ne (numbered t.peer_asn i) key (format_nat info.remote_asn) _ b
    ∙ lookup-insert_ne (numbered t.local_asn i) key (format_nat info.local_asn) m a

-- An annotation of the node whose key is no name that the templates give for one of the peers keeps
-- its value, and none is added under such a key.
pub peer_annotations_keep :
    (t : Templates) (info : NodeBgpInfo) (m : Labels) (key : String)
    → All (IsOther key) (annotation_names t 0 (sort_peers info.peers))
    → lookup key (peer_annotations t info m) ≡ lookup key m
unfolding peer_annotations
peer_annotations_keep t info m key h = annotate_peers_keep t info 0 (sort_peers info.peers) m key h
