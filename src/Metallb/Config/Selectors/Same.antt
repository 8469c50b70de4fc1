-- ===== src/Metallb/Config/Selectors/Same.antt =====
-- What NodeSelector.Equal says of the labels of two selectors.
use cloud_provider_cherry.Prelude.{
  String, Bool, true, false, none, some, [], ◌∷◌, ◌≡◌, refl, ap, ◌∙◌, ◌==◌, ◌!=◌, ◌||◌, ◌&&◌,
  string_eq, nat_eq, if◌then◌else◌, length, index, lookup, HasDistinctKeys, no_blank,
  index-of_holds, index-there, Bool-cases, inl, inr, arith, eq_iff,
}
use cloud_provider_cherry.Metallb.Config.{items, NodeSelector}
use cloud_provider_cherry.Metallb.Config.Requirements.{
  Answer, sort_with, equal_each, equal_requirements,
}
use cloud_provider_cherry.Metallb.Config.Selectors.{has_labels, equal_selector}

-- Of a selector none of whose labels is empty, over labels whose keys are distinct: if Equal holds
-- then both selectors have the same labels, and equally many match expressions.
pub equal_selector-labels :
    (n o : NodeSelector)
    → HasDistinctKeys (items n.match_labels)
    → HasDistinctKeys (items o.match_labels)
    → no_blank (items n.match_labels) ≡ true
    → (equal_selector n o).0 ≡ true
    → (length (items n.match_labels) ≡ length (items o.match_labels))
      × ((k : String) → index (items o.match_labels) k ≡ index (items n.match_labels) k)
      × (length (items n.match_expressions) ≡ length (items o.match_expressions))
unfolding equal_selector
equal_selector-labels n o d e b h =
    elim (Bool-cases (
      length (items n.match_labels) != length (items o.match_labels)
      || length (items n.match_expressions) != length (items o.match_expressions))) [
        | inl f ↦ let impossible = rw f at h in cc
        | inr f ↦ elim (Bool-cases (has_labels (items o.match_labels) (items n.match_labels))) [
          | inr g ↦ let impossible = rw (f, g) at h in cc
          | inl g ↦
              let sizes = same_sizes f in
              (
                sizes.0,
                index-of_holds (items o.match_labels) (items n.match_labels) e d b sizes.0 g,
                sizes.1,
              )
        ]
      ]
  where
    same_sizes :
        (length (items n.match_labels) != length (items o.match_labels)
            || length (items n.match_expressions) != length (items o.match_expressions))
          ≡ false
        → (length (items n.match_labels) ≡ length (items o.match_labels))
          × (length (items n.match_expressions) ≡ length (items o.match_expressions))
    same_sizes f = ground (arith, f)

abbrev pub one_label : String → String → NodeSelector
one_label k v = record { match_labels = some ((k, v) ∷ []); match_expressions = none }

by_labels :
    (k v j w : String) (b : Bool)
    → has_labels ((j, w) ∷ []) ((k, v) ∷ []) ≡ b
    → (equal_selector (one_label k v) (one_label j w)).0 ≡ b
unfolding equal_selector equal_requirements sort_with equal_each
by_labels k v j w b e =
    ap
      (λ (c : Bool).
        (if◌then◌else◌ {A = Answer Bool NodeSelector} c (true, one_label k v, one_label j w)
          (false, one_label k v, one_label j w)).0)
      e
    ∙ split b
  where
    split :
        (b : Bool)
        → (if◌then◌else◌ {A = Answer Bool NodeSelector} b
            (true, one_label k v, one_label j w)
            (false, one_label k v, one_label j w)).0
          ≡ b
    split true = refl
    split false = refl

-- A missing label reads as the empty one: a selector whose only label is empty is equal to any
-- selector of one other label, though not the other way round where that label is not empty.
pub equal_selector-of_blank :
    (k j v : String)
    → (k == j) ≡ false
    → (v == "") ≡ false
    → ((equal_selector (one_label k "") (one_label j v)).0 ≡ true)
      × ((equal_selector (one_label j v) (one_label k "")).0 ≡ false)
unfolding lookup
equal_selector-of_blank k j v h b =
    let h' : (j == k) ≡ false = ground (arith, eq_iff k j, eq_iff j k) in
    let b' : ("" == v) ≡ false = ground (arith, eq_iff "" v, eq_iff v "") in
    (
      by_labels k "" j v true (ap (λ (t : String). t == "" && true) (index-there j v k [] h')),
      by_labels j v k "" false (
          ap (λ (t : String). t == v && true) (index-there k "" j [] h)
          ∙ ap (λ (c : Bool). c && true) b'),
    )
