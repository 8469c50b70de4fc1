-- ===== src/Metallb/Config/Selectors.antt =====
-- The comparisons of node selectors and of peers of the configuration file, NodeSelector,
-- NodeSelectors and Peer of cherry/loadbalancers/metallb/config.go. They too return both sides as
-- they leave them. Where the source takes a pointer that its callers never make nil, it is a value.
pub mod Same
use cloud_provider_cherry.Prelude.{
  ℕ, ◌+◌, String, Bool, true, false, not, ◌&&◌, ◌||◌, Option, none, some, List, [], ◌∷◌, map, ◌==◌,
  ◌!=◌, string_eq, nat_eq, if◌then◌else◌, ltb, leb, text_lt, length, all, sort_strings, sort,
  Labels, index, lookup,
}
use cloud_provider_cherry.Metallb.Services.{service_name_key, service_namespace_key}
use cloud_provider_cherry.Metallb.Config.{items, SelectorRequirements, NodeSelector, Peer}
use cloud_provider_cherry.Metallb.Config.Requirements.{
  Answer, sort_with, equal_each, compare_requirement, is_lt, less_requirement, equal_requirements,
}

abbrev pub is_nil {ℓ} : {A : Type ℓ} → Option A → Bool
is_nil none = true
is_nil (some a) = false

-- The elements of the slice of match expressions, in place.
abbrev pub with_expressions : NodeSelector → List SelectorRequirements → NodeSelector
with_expressions n es = record n {
  match_expressions = elim n.match_expressions [ none ↦ none | some old ↦ some es ];
}

-- The loop of NodeSelectors.Less over the sorted keys of the labels; none is to go on after it.
unfoldable pub labels_lower : Labels → Labels → List String → List String → Option Bool
labels_lower m o [] others = none
labels_lower m o (k ∷ ks) [] = none
labels_lower m o (k ∷ ks) (j ∷ js) =
    let rest = labels_lower m o ks js in
    if k != j
    then some (text_lt k j)
    else if index m k != index o k
    then some (text_lt (index m k) (index o k))
    else rest

-- The last loop of NodeSelectors.Less, over the sorted match expressions.
unfoldable pub any_less :
    List SelectorRequirements → List SelectorRequirements → Answer Bool (List SelectorRequirements)
unfolding compare_requirement
any_less [] others = (false, [], others)
any_less (s ∷ ss) [] = (false, s ∷ ss, [])
any_less (s ∷ ss) (o ∷ os) =
    let (order, s', o') = compare_requirement s o in
    let (lower, ss', os') = any_less ss os in
    if is_lt order then (true, s' ∷ ss, o' ∷ os) else (lower, s' ∷ ss', o' ∷ os')

-- The second half of NodeSelectors.Less: the match expressions.
unfoldable pub less_expressions : NodeSelector → NodeSelector → Answer Bool NodeSelector
unfolding any_less sort_with less_requirement
less_expressions n o =
    let ns = items n.match_expressions in
    let os = items o.match_expressions in
    if is_nil n.match_expressions && not (is_nil o.match_expressions)
    then (true, n, o)
    else if not (is_nil n.match_expressions) && is_nil o.match_expressions
    then (false, n, o)
    else if length ns != length os
    then (ltb (length ns) (length os), n, o)
    else (let (lower, ns', os') =
          any_less (sort_with less_requirement ns) (sort_with less_requirement os) in
        (lower, with_expressions n ns', with_expressions o os'))

abbrev pub sorted_keys : Labels → List String
sorted_keys m = sort_strings (map (λ kv. kv.0) m)

-- NodeSelectors.Less, of two elements.
unfoldable pub less_selector : NodeSelector → NodeSelector → Answer Bool NodeSelector
unfolding labels_lower less_expressions sort
less_selector n o =
    let m = items n.match_labels in
    let k = items o.match_labels in
    if is_nil n.match_labels && not (is_nil o.match_labels)
    then (true, n, o)
    else if not (is_nil n.match_labels) && is_nil o.match_labels
    then (false, n, o)
    else if length m != length k
    then (ltb (length m) (length k), n, o)
    else elim (labels_lower m k (sorted_keys m) (sorted_keys k)) [
      | some lower ↦ (lower, n, o)
      | none ↦ less_expressions n o
    ]

-- The loop of NodeSelector.Equal over the labels.
abbrev pub has_labels : Labels → Labels → Bool
has_labels o m = all (λ (kv : String × String). index o kv.0 == kv.1) m

-- NodeSelector.Equal
unfoldable pub equal_selector : NodeSelector → NodeSelector → Answer Bool NodeSelector
unfolding equal_requirements
equal_selector n o =
    let ns = items n.match_expressions in
    let os = items o.match_expressions in
    if length (items n.match_labels) != length (items o.match_labels) || length ns != length os
    then (false, n, o)
    else if has_labels (items o.match_labels) (items n.match_labels)
    then (let (same, ns', os') = equal_requirements ns os in
        (same, with_expressions n ns', with_expressions o os'))
    else (false, n, o)

-- NodeSelectors.Equal
unfoldable pub equal_selectors :
    List NodeSelector → List NodeSelector → Answer Bool (List NodeSelector)
unfolding sort_with less_selector equal_each equal_selector
equal_selectors ns os =
    if length ns != length os
    then (false, ns, os)
    else equal_each equal_selector (sort_with less_selector ns) (sort_with less_selector os)

-- What EqualIgnoreService skips.
unfoldable pub is_service_selector : NodeSelector → Bool
is_service_selector ns =
    let m = items ns.match_labels in
    leb (length m) 2
    && length (items ns.match_expressions) == 0
    && (index m service_name_key != "" || index m service_namespace_key != "")

-- A node selector with its place in the slice that it is taken from.
abbrev pub Placed : Type 0
Placed = ℕ × NodeSelector

abbrev pub at_places :
    (NodeSelector → NodeSelector → Answer Bool NodeSelector) → Placed → Placed → Answer Bool Placed
at_places f (i, n) (j, o) = let (b, n', o') = f n o in (b, (i, n'), (j, o'))

unfoldable pub placed_from : ℕ → List NodeSelector → List Placed
unfolding is_service_selector
placed_from i [] = []
placed_from i (ns ∷ rest) =
    let others = placed_from (i + 1) rest in
    if is_service_selector ns then others else (i, ns) ∷ others

-- The selectors, whose match expressions are shared with those that were compared.
abbrev pub put_back : NodeSelector → Option NodeSelector → NodeSelector
put_back ns none = ns
put_back ns (some changed) = with_expressions ns (items changed.match_expressions)

unfoldable pub put_back_from : ℕ → List Placed → List NodeSelector → List NodeSelector
unfolding lookup
put_back_from i changed [] = []
put_back_from i changed (ns ∷ rest) =
    put_back ns (lookup i changed) ∷ put_back_from (i + 1) changed rest

-- NodeSelectors.EqualIgnoreService
unfoldable pub equal_ignore_service :
    List NodeSelector → List NodeSelector → Answer Bool (List NodeSelector)
unfolding placed_from put_back_from sort_with less_selector equal_each equal_selector
equal_ignore_service ns os =
    let ns₁ = placed_from 0 ns in
    let os₁ = placed_from 0 os in
    if length ns₁ != length os₁
    then (false, ns, os)
    else (let (same, ns₂, os₂) =
          equal_each (at_places equal_selector) (sort_with (at_places less_selector) ns₁)
            (sort_with (at_places less_selector) os₁) in
        (same, put_back_from 0 ns₂ ns, put_back_from 0 os₂ os))

-- The fields that both comparisons of peers read.
unfoldable pub same_fields : Peer → Peer → Bool
same_fields p o =
    p.my_asn == o.my_asn
    && p.asn == o.asn
    && p.addr == o.addr
    && p.port == o.port
    && p.hold_time == o.hold_time
    && p.password == o.password
    && p.router_id == o.router_id

abbrev pub with_selectors : Peer → List NodeSelector → Peer
with_selectors p selectors = record p { node_selectors = selectors }

-- Peer.Equal and Peer.EqualIgnoreService, by their comparison of the node selectors.
unfoldable pub equal_by :
    (List NodeSelector → List NodeSelector → Answer Bool (List NodeSelector))
    → Peer
    → Peer
    → Answer Bool Peer
unfolding same_fields
equal_by f p o =
    if same_fields p o
    then (let (same, ns, os) = f p.node_selectors o.node_selectors in
        (same, with_selectors p ns, with_selectors o os))
    else (false, p, o)

unfoldable pub peer_equal : Peer → Peer → Answer Bool Peer
unfolding equal_by equal_selectors
peer_equal p o = equal_by equal_selectors p o

unfoldable pub peer_equal_ignore_service : Peer → Peer → Answer Bool Peer
unfolding equal_by equal_ignore_service
peer_equal_ignore_service p o = equal_by equal_ignore_service p o

-- Peer.MatchSelector
unfoldable pub match_selector :
    List NodeSelector → NodeSelector → Bool × List NodeSelector × NodeSelector
unfolding equal_selector
match_selector [] s = (false, [], s)
match_selector (ns ∷ rest) s =
    let (same, ns', s') = equal_selector ns s in
    let (found, rest', s'') = match_selector rest s' in
    if same then (true, ns' ∷ rest, s') else (found, ns' ∷ rest', s'')
