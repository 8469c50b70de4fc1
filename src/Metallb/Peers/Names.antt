-- ===== src/Metallb/Peers/Names.antt =====
-- cherry/loadbalancers/metallb/bgp_peers.go: the names of the peers in FRR mode.
use cloud_provider_cherry.Prelude.{
  ℕ, ◌+◌, ◌≤◌, String, false, List, [], ◌∷◌, map, ◌≡◌, refl, sym, ap, ◌∙◌, ◌==◌, string_eq, insert,
  contains, length, filter, filter-perm, length-perm, sort-perm, HasDistinctKeys, Bool-cases, arith,
  eq_iff, inl, inr,
}
use cloud_provider_cherry.LoadBalancers as Lb
use cloud_provider_cherry.LoadBalancers.{Node}
use cloud_provider_cherry.Metallb.Config.{Peer, NodeSelector}
use cloud_provider_cherry.Metallb.Peers.{
  frr_peer, frr_add_peers, frr_add_nodes, lower_name, peers_from_nodes_frr,
}

abbrev PeerMap : Type 0
PeerMap = List (String × Peer)

abbrev keys : PeerMap → List String
keys m = map (λ p. p.0) m

-- Every peer stands under its own name.
abbrev IsOwnName : PeerMap → Type 0
IsOwnName [] = Unit
IsOwnName ((k, p) ∷ m) = (p.name ≡ k) × IsOwnName m

abbrev IsNamed : PeerMap → Type 0
IsNamed m = HasDistinctKeys m × IsOwnName m

contains-insert :
    (j k : String) (p : Peer) (m : PeerMap)
    → (j == k) ≡ false
    → contains j (keys m) ≡ false
    → contains j (keys (insert k p m)) ≡ false
unfolding insert
contains-insert j k p [] h g = ground arith
contains-insert j k p ((i, q) ∷ m) h g = elim (Bool-cases (i == k)) [
  | inl e ↦ rw e (ground arith)
  | inr e ↦ rw e (ground (arith, contains-insert j k p m))
]

insert-HasDistinctKeys :
    (k : String) (p : Peer) (m : PeerMap) → HasDistinctKeys m → HasDistinctKeys (insert k p m)
unfolding insert
insert-HasDistinctKeys k p [] d = (refl, tt)
insert-HasDistinctKeys k p ((i, q) ∷ m) d = elim (Bool-cases (i == k)) [
  | inl e ↦ rw e (ap (λ j. contains j (keys m)) (sym ((eq_iff i k).0 e)) ∙ d.0, d.1)
  | inr e ↦ rw e (contains-insert i k p m e d.0, insert-HasDistinctKeys k p m d.1)
]

insert-IsOwnName :
    (k : String) (p : Peer) (m : PeerMap) → p.name ≡ k → IsOwnName m → IsOwnName (insert k p m)
unfolding insert
insert-IsOwnName k p [] e h = (e, tt)
insert-IsOwnName k p ((i, q) ∷ m) e h = elim (Bool-cases (i == k)) [
  | inl s ↦ rw s (e, h.1)
  | inr s ↦ rw s (h.0, insert-IsOwnName k p m e h.1)
]

abbrev count : String → PeerMap → ℕ
count n m = length (filter (λ (p : Peer). p.name == n) (map (λ p. p.1) m))

count_absent :
    (n : String) (m : PeerMap) → contains n (keys m) ≡ false → IsOwnName m → count n m ≡ 0
count_absent n [] h own = refl
count_absent n ((k, p) ∷ m) h own =
    ground (arith, eq_iff p.name n, eq_iff n k, own.0, count_absent n m)

count_named : (n : String) (m : PeerMap) → IsNamed m → count n m ≤ 1
count_named n [] h = omega arith
count_named n ((k, p) ∷ m) (d, own) = elim (Bool-cases (p.name == n)) [
  | inr e ↦ rw e (count_named n m (d.1, own.1))
  | inl e ↦ rw e (
      omega (
        arith,
        count_absent n m (ap (λ j. contains j (keys m)) (sym ((eq_iff p.name n).0 e) ∙ own.0) ∙ d.0)
            own.1,
      ))
]

module _ (ns : NodeSelector) where
  frr_add_peers-IsNamed :
      (node : Node) (i : ℕ) (ps : List Lb.Peer) (m : PeerMap)
      → IsNamed m
      → IsNamed (frr_add_peers ns node i ps m)
  unfolding frr_add_peers
  frr_add_peers-IsNamed node i [] m h = h
  frr_add_peers-IsNamed node i (p ∷ ps) m (d, own) =
      let new = frr_peer ns node i p in
      frr_add_peers-IsNamed node (i + 1) ps (insert new.name new m)
        (insert-HasDistinctKeys new.name new m d, insert-IsOwnName new.name new m refl own)

  frr_add_nodes-IsNamed :
      (nodes : List Node) (m : PeerMap) → IsNamed m → IsNamed (frr_add_nodes ns nodes m)
  unfolding frr_add_nodes
  frr_add_nodes-IsNamed [] m h = h
  frr_add_nodes-IsNamed (node ∷ nodes) m h =
      frr_add_nodes-IsNamed nodes (frr_add_peers ns node 0 node.peers m)
        (frr_add_peers-IsNamed node 0 node.peers m h)

  -- In FRR mode no name is that of two peers, however many nodes of a region there are.
  pub frr_name_once :
      (nodes : List Node) (n : String)
      → length (filter (λ (p : Peer). p.name == n) (peers_from_nodes_frr ns nodes)) ≤ 1
  unfolding peers_from_nodes_frr
  frr_name_once nodes n =
      let m = frr_add_nodes ns nodes [] in
      let same : length (filter (λ (p : Peer). p.name == n) (peers_from_nodes_frr ns nodes))
          ≡ count n m =
        length-perm (
          filter-perm (λ (p : Peer). p.name == n) (sort-perm (lower_name ns) (map (λ p. p.1) m))) in
      rw same (count_named n m (frr_add_nodes-IsNamed nodes [] (tt, tt)))
