-- ===== src/Controller/Nodes/Described.antt =====
-- What the implementor is told of the nodes.
use cloud_provider_cherry.Prelude.{
  false, List, [], ◌∷◌, ◌==◌, string_eq, ◌≡◌, refl, ◌∙◌, Bool-cases, inl, inr,
}
use cloud_provider_cherry.Effect.{ok, Action-cases, >>=-of_ok}
use cloud_provider_cherry.Bgp.{NodeBgpInfo}
use cloud_provider_cherry.LoadBalancers.{Node}
use cloud_provider_cherry.Controller.{KubeNode, LoadBalancers}
use cloud_provider_cherry.Controller.Nodes.{
  attempt, attempt-of_ok, attempt-of_err, describe_node, annotate_node, nodes_to_add,
}

module _ {W : Type 0} (l : LoadBalancers W) where
  -- The call on a node that has been made: from some world, the enabler answered for the provider ID of
  -- the node, and the node was annotated with success in the world after it.
  abbrev pub IsReady : KubeNode → NodeBgpInfo → Type 0
  IsReady node info =
      (w w₁ w₂ : W) × (l.ensure_node_bgp_enabled node.provider_id w ≡ (ok info, w₁))
      × (annotate_node l node w₁ ≡ (ok tt, w₂))

  -- The descriptions are those of some of the nodes, in their order; each of these nodes has a
  -- provider ID, its BGP is enabled and it is annotated.
  pub data AreDescribed : List KubeNode → List Node → Type 0 where
    nothing : AreDescribed [] []
    skipped :
        (node : KubeNode) {nodes : List KubeNode} {described : List Node}
        → AreDescribed nodes described
        → AreDescribed (node ∷ nodes) described
    told :
        (node : KubeNode) (info : NodeBgpInfo) {nodes : List KubeNode} {described : List Node}
        → (node.provider_id == "") ≡ false
        → IsReady node info
        → AreDescribed nodes described
        → AreDescribed (node ∷ nodes) (describe_node node info ∷ described)

  -- Whatever the calls answer, the loop of addService comes to an end without an error, and what it
  -- has collected are the descriptions of nodes that are ready, in the order of the nodes.
  pub nodes_to_add_lem :
      (nodes : List KubeNode) (w : W)
      → (described : List Node) × (w' : W) × (nodes_to_add l nodes w ≡ (ok described, w'))
        × AreDescribed nodes described
  unfolding nodes_to_add
  nodes_to_add_lem [] w = ([], w, refl, nothing)
  nodes_to_add_lem (node ∷ nodes) w = elim (Bool-cases (node.provider_id == "")) [
    | inl e ↦
        let (described, w', run, are) = nodes_to_add_lem nodes w in
        (described, w', rw (nodes_to_add, e) run, skipped node are)
    | inr e ↦
        let ensure = l.ensure_node_bgp_enabled node.provider_id in
        let annotate = annotate_node l node in
        elim (Action-cases ensure w) [
          | inl (x, w₁, f) ↦
              let (described, w', run, are) = nodes_to_add_lem nodes w₁ in
              (
                described,
                w',
                rw (nodes_to_add, e)
                    (>>=-of_ok (attempt ensure) _ w (attempt-of_err ensure w f) ∙ run),
                skipped node are,
              )
          | inr (info, w₁, f) ↦ elim (Action-cases annotate w₁) [
            | inl (x, w₂, g) ↦
                let (described, w', run, are) = nodes_to_add_lem nodes w₂ in
                (
                  described,
                  w',
                  rw (nodes_to_add, e)
                      (>>=-of_ok (attempt ensure) _ w (attempt-of_ok ensure w f)
                        ∙ >>=-of_ok (attempt annotate) _ w₁ (attempt-of_err annotate w₁ g)
                        ∙ run),
                  skipped node are,
                )
            | inr (t, w₂, g) ↦
                let (described, w', run, are) = nodes_to_add_lem nodes w₂ in
                (
                  describe_node node info ∷ described,
                  w',
                  rw (nodes_to_add, e)
                      (>>=-of_ok (attempt ensure) _ w (attempt-of_ok ensure w f)
                        ∙ >>=-of_ok (attempt annotate) _ w₁ (attempt-of_ok annotate w₁ g)
                        ∙ >>=-of_ok (nodes_to_add l nodes) _ w₂ run),
                  told node info e (w, w₁, w₂, f, g) are,
                )
          ]
        ]
  ]
