-- ===== src/ControlPlane/Filters.antt =====
-- cherry/fip_controlplane_reconciliation.go: what the filters and the node set leave of the nodes.
use cloud_provider_cherry.Prelude.{
  String, Bool, true, not, ◌&&◌, List, [], ◌∷◌, ◌!=◌, string_eq, if◌then◌else◌, ◌≡◌, refl, sym, ◌∙◌,
  ap, map, lookup, insert, filter, length, ltb, arith, any, all, Option-cases, all-filter,
  filter-passes,
}
use mathlib.Core.Logic.{inl, inr}
use cloud_provider_cherry.Effect.{ok, Result-cases, ok_inj, ok-ne-err}
use cloud_provider_cherry.ControlPlane.{
  Node, unless_empty, try_filter_self, filter_deleting_nodes, try_filter_unschedulable_nodes,
  NodeSet, add, add_node_list, run_filters, health_filters, away_filters, Cloud,
}
use cloud_provider_cherry.ControlPlane.Manage.{collect}

abbrev pub is_live : Node → Bool
is_live n = not n.deleting

abbrev pub values : NodeSet → List Node
values set = map (λ p. p.1) set

pub all-unless_empty :
    (p : Node → Bool) (xs ys : List Node)
    → all p xs ≡ true
    → all p ys ≡ true
    → all p (unless_empty xs ys) ≡ true
unfolding unless_empty
all-unless_empty p xs ys hx hy = ground (arith)

all-try_filter_unschedulable_nodes :
    (p : Node → Bool) (nodes : List Node)
    → all p nodes ≡ true
    → all p (try_filter_unschedulable_nodes nodes) ≡ true
unfolding try_filter_unschedulable_nodes
all-try_filter_unschedulable_nodes p nodes h =
    all-unless_empty p _ nodes (all-filter (λ n. not n.unschedulable) p nodes h) h

-- A test that all nodes pass is passed by all that the filters leave.
pub all-health_filters :
    (p : Node → Bool) (nodes : List Node)
    → all p nodes ≡ true
    → all p (run_filters health_filters nodes) ≡ true
unfolding run_filters health_filters filter_deleting_nodes
all-health_filters p nodes h =
    all-try_filter_unschedulable_nodes p (filter is_live nodes) (all-filter is_live p nodes h)

pub live-health_filters :
    (nodes : List Node) → all is_live (run_filters health_filters nodes) ≡ true
unfolding run_filters health_filters filter_deleting_nodes
live-health_filters nodes =
    all-try_filter_unschedulable_nodes is_live (filter is_live nodes) (filter-passes is_live nodes)

abbrev pub is_best : Node → Bool
is_best n = is_live n && not n.unschedulable

filter-best :
    (nodes : List Node)
    → filter (λ n. not n.unschedulable) (filter is_live nodes) ≡ filter is_best nodes
filter-best [] = refl
filter-best (n ∷ ns) = ground (arith, filter-best ns)

length-filter :
    (p : Node → Bool) (nodes : List Node) → ltb 0 (length (filter p nodes)) ≡ any p nodes
length-filter p [] = ground arith
length-filter p (n ∷ ns) = ground (arith, length-filter p ns)

-- The nodes that doHealthCheck chooses from: the live schedulable ones if there is one, and
-- otherwise all that are not being deleted.
pub health_filters_lem :
    (nodes : List Node)
    → run_filters health_filters nodes
      ≡ (if any is_best nodes then filter is_best nodes else filter is_live nodes)
unfolding run_filters health_filters filter_deleting_nodes try_filter_unschedulable_nodes
    unless_empty
health_filters_lem nodes = rw (filter-best nodes, length-filter is_best nodes) refl

pub away_filters-eq :
    (self : Node) (nodes : List Node)
    → run_filters (away_filters self) nodes
      ≡ try_filter_self self (run_filters health_filters nodes)
unfolding run_filters health_filters away_filters
away_filters-eq self nodes = refl

filter-twice :
    (p q : Node → Bool) (nodes : List Node)
    → filter q (filter p nodes) ≡ filter (λ n. p n && q n) nodes
filter-twice p q [] = refl
filter-twice p q (n ∷ ns) = ground (arith, filter-twice p q ns)

any-weaken :
    (p q : Node → Bool) (nodes : List Node)
    → any (λ n. p n && q n) nodes ≡ true
    → any p nodes ≡ true
any-weaken p q [] h = h
any-weaken p q (n ∷ ns) h = ground (arith, any-weaken p q ns)

-- A node that gives the floating IP away, when there is a live schedulable node of another name:
-- the nodes to choose from are exactly the live schedulable ones of another name.
pub away_filters_lem :
    (self : Node) (nodes : List Node)
    → any (λ n. is_best n && (n.name != self.name)) nodes ≡ true
    → run_filters (away_filters self) nodes ≡ filter (λ n. is_best n && (n.name != self.name)) nodes
unfolding try_filter_self unless_empty
away_filters_lem self nodes h =
    let other : Node → Bool = λ n. n.name != self.name in
    rw
      (
        away_filters-eq self nodes,
        health_filters_lem nodes,
        any-weaken is_best other nodes h,
        filter-twice is_best other nodes,
        length-filter (λ n. is_best n && other n) nodes,
        h,
      )
      refl

pub all-try_filter_self :
    (p : Node → Bool) (self : Node) (nodes : List Node)
    → all p nodes ≡ true
    → all p (try_filter_self self nodes) ≡ true
unfolding try_filter_self
all-try_filter_self p self nodes h = all-unless_empty p _ _ (all-filter _ p nodes h) h

all-insert :
    (p : Node → Bool) (k : String) (n : Node) (set : NodeSet)
    → all p (values set) ≡ true
    → p n ≡ true
    → all p (values (insert k n set)) ≡ true
unfolding insert
all-insert p k n [] h hn = ground arith
all-insert p k n ((j, m) ∷ set) h hn = ground (arith, all-insert p k n set)

all-add :
    (p : Node → Bool) (n : Node) (set : NodeSet)
    → all p (values set) ≡ true
    → p n ≡ true
    → all p (values (add n set)) ≡ true
unfolding add
all-add p n set h hn = elim (Option-cases (lookup n.name set)) [
  | inl e ↦ rw (e, add) (all-insert p n.name n set h hn)
  | inr (m, e) ↦ rw (e, add) h
]

pub all-add_node_list :
    (p : Node → Bool) (nodes : List Node) (set : NodeSet)
    → all p nodes ≡ true
    → all p (values set) ≡ true
    → all p (values (add_node_list nodes set)) ≡ true
unfolding add_node_list
all-add_node_list p [] set h hs = hs
all-add_node_list p (n ∷ ns) set h hs =
    all-add_node_list p ns (add n set) (ground arith) (all-add p n set hs (ground arith))

pub all-collect :
    {W : Type 0} (cloud : Cloud W) (p : Node → Bool) (w : W)
    → ((s : String) (nodes : List Node) → cloud.list_nodes s w ≡ ok nodes → all p nodes ≡ true)
    → (ss : List String) (set found : NodeSet) → all p (values set) ≡ true
    → collect cloud ss set w ≡ ok found
    → all p (values found) ≡ true
unfolding collect
all-collect cloud p w listed [] set found hs e = sym (ap (λ s. all p (values s)) (ok_inj e)) ∙ hs
all-collect cloud p w listed (s ∷ ss) set found hs e = elim (Result-cases (cloud.list_nodes s w)) [
  | inl (x, f) ↦ ok-ne-err (rw (f, collect) at e)
  | inr (nodes, f) ↦
      all-collect cloud p w listed ss (add_node_list nodes set) found
        (all-add_node_list p nodes set (listed s nodes f) hs) (rw (f, collect) at e)
]
