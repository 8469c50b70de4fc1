-- ===== src/Metallb/Config/Requirements.antt =====
-- The comparisons of match expressions of the configuration file, SelectorRequirements and
-- SelectorRequirementsSlice of cherry/loadbalancers/metallb/config.go. Go's slices `a[:]` share
-- their elements with `a`, so that a comparison sorts what it compares: it returns both sides as it
-- leaves them. An index out of range is not reached, since the lengths are compared first.
pub mod Same
use Prim.Native.Nat.{Ordering}
use Prim.Native.String.{compare}
use cloud_provider_cherry.Prelude.{
  String, Bool, true, false, none, some, List, [], ◌∷◌, ◌!=◌, string_eq, nat_eq, if◌then◌else◌, ltb,
  text_lt, length, sort_strings, sort,
}
use mathlib.Core.List.{reverse}
use cloud_provider_cherry.Metallb.Config.{items, SelectorRequirements}

-- What a comparison of two values says, and both of them after it.
abbrev pub Answer : Type 0 → Type 0 → Type 0
Answer R A = R × A × A

-- sort.Sort by a comparison that changes what it compares: the insertion sort of Prelude/Sort.
module _ {A : Type 0} (less : A → A → Answer Bool A) where
  sink_with : A → List A → List A
  sink_with x [] = x ∷ []
  sink_with x (y ∷ ys) =
      let (lower, x', y') = less x y in
      let moved = y' ∷ sink_with x' ys in if lower then moved else x' ∷ y' ∷ ys

  sort_with_from : List A → List A → List A
  unfolding sink_with
  sort_with_from done [] = reverse done
  sort_with_from done (x ∷ xs) = sort_with_from (sink_with x done) xs

  unfoldable pub sort_with : List A → List A
  unfolding sort_with_from
  sort_with xs = sort_with_from [] xs

-- The loop of two methods that call Equal on the sorted elements, of which there are equally many.
module _ {A : Type 0} (equal : A → A → Answer Bool A) where
  unfoldable pub equal_each : List A → List A → Answer Bool (List A)
  equal_each [] others = (true, [], others)
  equal_each (x ∷ xs) [] = (true, x ∷ xs, [])
  equal_each (x ∷ xs) (y ∷ ys) =
      let (same, x', y') = equal x y in
      let (rest, xs', ys') = equal_each xs ys in
      if same then (rest, x' ∷ xs', y' ∷ ys') else (false, x' ∷ xs, y' ∷ ys)

-- The loop of SelectorRequirements.Compare over the sorted values.
unfoldable pub compare_values : List String → List String → Ordering
compare_values [] others = Ordering.eq
compare_values (v ∷ vs) [] = Ordering.eq
compare_values (v ∷ vs) (o ∷ os) =
    let rest = compare_values vs os in if v != o then compare v o else rest

-- `sort.Strings` of the values in place.
unfoldable pub sorted_values : SelectorRequirements → SelectorRequirements
unfolding sort
sorted_values s = record s {
  values = elim s.values [ none ↦ none | some vs ↦ some (sort_strings vs) ];
}

-- The switch of SelectorRequirements.Compare.
unfoldable pub compare_by_values :
    SelectorRequirements → SelectorRequirements → Answer Ordering SelectorRequirements
unfolding compare_values sorted_values sort
compare_by_values s o = elim s.values [
  | none ↦ elim o.values [ none ↦ (Ordering.eq, s, o) | some os ↦ (Ordering.lt, s, o) ]
  | some vs ↦ elim o.values [
    | none ↦ (Ordering.gt, s, o)
    | some os ↦
        if ltb (length vs) (length os)
        then (Ordering.lt, s, o)
        else if ltb (length os) (length vs)
        then (Ordering.gt, s, o)
        else (compare_values (sort_strings vs) (sort_strings os), sorted_values s, sorted_values o)
  ]
]

-- SelectorRequirements.Compare; its results -1, 0 and 1 are lt, eq and gt.
unfoldable pub compare_requirement :
    SelectorRequirements → SelectorRequirements → Answer Ordering SelectorRequirements
unfolding compare_by_values
compare_requirement s o =
    if s.key != o.key
    then (compare s.key o.key, s, o)
    else if s.operator != o.operator
    then (compare s.operator o.operator, s, o)
    else compare_by_values s o

-- `compare < 0` and `compare == 0`
abbrev pub is_lt : Ordering → Bool
is_lt Ordering.lt = true
is_lt Ordering.eq = false
is_lt Ordering.gt = false

abbrev pub is_eq : Ordering → Bool
is_eq Ordering.lt = false
is_eq Ordering.eq = true
is_eq Ordering.gt = false

-- SelectorRequirements.Equal
unfoldable pub equal_requirement :
    SelectorRequirements → SelectorRequirements → Answer Bool SelectorRequirements
unfolding compare_requirement
equal_requirement s o = let (order, s', o') = compare_requirement s o in (is_eq order, s', o')

-- The loop of SelectorRequirementsSlice.Less over the sorted values.
unfoldable pub values_lower : List String → List String → Bool
values_lower [] others = false
values_lower (v ∷ vs) [] = false
values_lower (v ∷ vs) (o ∷ os) =
    let rest = values_lower vs os in if v != o then text_lt v o else rest

-- SelectorRequirementsSlice.Less, of two elements.
unfoldable pub less_requirement :
    SelectorRequirements → SelectorRequirements → Answer Bool SelectorRequirements
unfolding values_lower sorted_values
less_requirement s o =
    if s.key != o.key
    then (text_lt s.key o.key, s, o)
    else if s.operator != o.operator
    then (text_lt s.operator o.operator, s, o)
    else if length (items s.values) != length (items o.values)
    then (ltb (length (items s.values)) (length (items o.values)), s, o)
    else (
      values_lower (items (sorted_values s).values) (items (sorted_values o).values),
      sorted_values s,
      sorted_values o,
    )

-- SelectorRequirementsSlice.Equal
unfoldable pub equal_requirements :
    List SelectorRequirements → List SelectorRequirements → Answer Bool (List SelectorRequirements)
unfolding less_requirement equal_requirement sort_with equal_each
equal_requirements ss os =
    if length ss != length os
    then (false, ss, os)
    else equal_each equal_requirement (sort_with less_requirement ss)
        (sort_with less_requirement os)
