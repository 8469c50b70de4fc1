-- ===== src/Tests/Selectors.antt =====
-- The comparisons of the configuration file, at concrete selectors and peers.
use Prim.Native.Nat.{Ordering}
use cloud_provider_cherry.Prelude.{
  String, true, false, none, some, List, [], ◌∷◌, ◌≡◌, ◌↔◌, refl, ◌||◌, ◌==◌, string_eq, length,
  index, lookup, sort,
}
use cloud_provider_cherry.Metallb.Resource.{resource_eq}
use cloud_provider_cherry.Metallb.Services.{services}
use cloud_provider_cherry.Metallb.Config.{items, SelectorRequirements, NodeSelector, node_selector}
use cloud_provider_cherry.Metallb.Config.Requirements.{compare_requirement, equal_requirements}
use cloud_provider_cherry.Metallb.Config.Requirements.Same.{HaveSame, compare_requirement-eq}
use cloud_provider_cherry.Metallb.Config.Selectors.{equal_selector, peer_equal}
use cloud_provider_cherry.Metallb.Config.Selectors.Same.{
  one_label, equal_selector-labels, equal_selector-of_blank,
}
use cloud_provider_cherry.Metallb.Config.Changes.{add_peer, add_peer_by_service}
use cloud_provider_cherry.Metallb.Config.Changes.Served.{any_serves, add_peer_by_service_lem}
use cloud_provider_cherry.Tests.Services.{web}
use cloud_provider_cherry.Tests.ConfigFile.{cfg, peer}

abbrev among : List String → SelectorRequirements
among zones = record { key = "zone"; operator = "In"; values = some zones }

compare_requirement-eq_example :
    ((compare_requirement (among ("b" ∷ "a" ∷ [])) (among ("a" ∷ "b" ∷ []))).0 ≡ Ordering.eq)
    ↔ (◌≡◌ {A = String} "zone" "zone")
      × (◌≡◌ {A = String} "In" "In")
      × HaveSame (some ("b" ∷ "a" ∷ [])) (some ("a" ∷ "b" ∷ []))
compare_requirement-eq_example =
    compare_requirement-eq (among ("b" ∷ "a" ∷ [])) (among ("a" ∷ "b" ∷ []))

abbrev two_labels : NodeSelector
two_labels = record {
  match_labels = some (("zone", "a") ∷ ("role", "worker") ∷ []);
  match_expressions = none;
}

abbrev turned : NodeSelector
turned = record {
  match_labels = some (("role", "worker") ∷ ("zone", "a") ∷ []);
  match_expressions = some [];
}

equal_selector-labels_example :
    (length (items two_labels.match_labels) ≡ length (items turned.match_labels))
    × ((k : String) → index (items turned.match_labels) k ≡ index (items two_labels.match_labels) k)
    × (length (items two_labels.match_expressions) ≡ length (items turned.match_expressions))
unfolding equal_selector equal_requirements lookup
equal_selector-labels_example =
    equal_selector-labels two_labels turned (refl, (refl, tt)) (refl, (refl, tt)) refl refl

equal_selector-of_blank_example :
    ((equal_selector (one_label "zone" "") (one_label "role" "worker")).0 ≡ true)
    × ((equal_selector (one_label "role" "worker") (one_label "zone" "")).0 ≡ false)
equal_selector-of_blank_example = equal_selector-of_blank "zone" "role" "worker" refl refl

add_peer_by_service_lem_example :
    (any_serves
        (add_peer_by_service (some (record peer { node_selectors = [] })) web cfg).0.peers
        web
      ≡ (web == web || any_serves cfg.peers web))
    × ((add_peer_by_service (some (record peer { node_selectors = [] })) web cfg).0.pools
        ≡ cfg.pools)
    × ((add_peer_by_service (some (record peer { node_selectors = [] })) web cfg).0.bgp_communities
        ≡ cfg.bgp_communities)
    × ((add_peer_by_service (some (record peer { node_selectors = [] })) web cfg).1 ≡ true)
    × (add_peer_by_service none web cfg ≡ (cfg, false))
unfolding services
add_peer_by_service_lem_example =
    add_peer_by_service_lem web (record peer { node_selectors = [] }) cfg web refl refl

-- A peer is added once, and removed again.
added_once_run : (add_peer (some peer) cfg).1 ≡ false
unfolding add_peer peer_equal equal_selector equal_requirements lookup sort
added_once_run = refl
