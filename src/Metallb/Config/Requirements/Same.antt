-- ===== src/Metallb/Config/Requirements/Same.antt =====
-- When two match expressions compare as equal.
use Prim.Native.Nat.{Ordering}
use Prim.Native.String.{compare}
use text.Mathlib.TextEquality.{path_by_compare}
use mathlib.Core.List.{Perm}
use mathlib.Core.List.Perm
use mathlib.Core.Bool.{false≢true}
use mathlib.Core.Path.{subst}
use cloud_provider_cherry.Prelude.{
  String, false, Option, none, some, List, [], ◌∷◌, ◌≡◌, ◌↔◌, refl, sym, ◌∙◌, ◌==◌, string_eq,
  if◌then◌else◌, ltb, length, sort_strings, sort-perm, sort_strings-perm, length-perm, text_lt,
  Bool-cases, inl, inr, arith, eq_iff, beq_refl,
}
use cloud_provider_cherry.Metallb.Config.{SelectorRequirements}
use cloud_provider_cherry.Metallb.Config.Requirements.{
  compare_values, compare_by_values, compare_requirement,
}

compare_values-eq :
    (xs ys : List String) → length xs ≡ length ys → compare_values xs ys ≡ Ordering.eq → xs ≡ ys
unfolding compare_values
compare_values-eq [] [] l h = refl
compare_values-eq [] (y ∷ ys) l h = absurd (omega (arith, l))
compare_values-eq (x ∷ xs) [] l h = absurd (omega (arith, l))
compare_values-eq (x ∷ xs) (y ∷ ys) l h = elim (Bool-cases (x == y)) [
  | inl e ↦
      let rest = compare_values-eq xs ys (omega (arith, l)) (rw e at h) in
      let first = (eq_iff x y).0 e in λ i. first i ∷ rest i
  | inr e ↦
      let found = rw e at h in
      let same = (eq_iff x y).1 (path_by_compare x y found) in absurd (false≢true (sym e ∙ same))
]

compare_values_refl : (xs : List String) → compare_values xs xs ≡ Ordering.eq
unfolding compare_values
compare_values_refl [] = refl
compare_values_refl (x ∷ xs) = rw (beq_refl x) (compare_values_refl xs)

-- Both are nil, or they have the same elements.
abbrev pub HaveSame : Option (List String) → Option (List String) → Type 0
HaveSame none none = Unit
HaveSame none (some os) = ⊥
HaveSame (some vs) none = ⊥
HaveSame (some vs) (some os) = Perm vs os

sorted→perm : (vs os : List String) → sort_strings vs ≡ sort_strings os → Perm vs os
sorted→perm vs os e =
    Perm.trans (Perm.symm (sort-perm text_lt vs))
      (subst (λ (l : List String). Perm l os) (sym e) (sort-perm text_lt os))

-- The comparison of two lists of values.
by_values : List String → List String → Ordering
by_values vs os =
    if ltb (length vs) (length os)
    then Ordering.lt
    else if ltb (length os) (length vs)
    then Ordering.gt
    else compare_values (sort_strings vs) (sort_strings os)

by_values-eq : (vs os : List String) → (by_values vs os ≡ Ordering.eq) ↔ Perm vs os
unfolding by_values
by_values-eq vs os = (to, from)
  where
    to : by_values vs os ≡ Ordering.eq → Perm vs os
    to h = elim (Bool-cases (ltb (length vs) (length os))) [
      | inl e ↦ let impossible = rw e at h in cc
      | inr e ↦ elim (Bool-cases (ltb (length os) (length vs))) [
        | inl f ↦ let impossible = rw (e, f) at h in cc
        | inr f ↦ sorted→perm vs os (
            compare_values-eq (sort_strings vs) (sort_strings os)
              (length-perm (sort-perm text_lt vs)
                ∙ same_length e f
                ∙ sym (length-perm (sort-perm text_lt os)))
              (rw (e, f) at h))
      ]
    ]
      where
        same_length :
            ltb (length vs) (length os) ≡ false
            → ltb (length os) (length vs) ≡ false
            → length vs ≡ length os
        same_length e f = ground (arith, e, f)

    from : Perm vs os → by_values vs os ≡ Ordering.eq
    from p =
        let l = length-perm p in rw (sort_strings-perm p, l, compare_values_refl) (ground arith)

pick :
    (s o : SelectorRequirements) (vs os : List String)
    → (compare_by_values (record s { values = some vs }) (record o { values = some os })).0
      ≡ by_values vs os
unfolding compare_by_values by_values
pick s o vs os = elim (Bool-cases (ltb (length vs) (length os))) [
  | inl e ↦ rw e refl
  | inr e ↦ elim (Bool-cases (ltb (length os) (length vs))) [
    | inl f ↦ rw (e, f) refl
    | inr f ↦ rw (e, f) refl
  ]
]

compare_by_values-eq :
    (s o : SelectorRequirements)
    → ((compare_by_values s o).0 ≡ Ordering.eq) ↔ HaveSame s.values o.values
unfolding compare_by_values
compare_by_values-eq s o = split s.values refl o.values refl
  where
    split :
        (a : Option (List String))
        → s.values ≡ a
        → (b : Option (List String)) → o.values ≡ b
        → ((compare_by_values s o).0 ≡ Ordering.eq) ↔ HaveSame s.values o.values
    split none e none f = rw (e, f) ((λ h. tt), (λ u. refl))
    split none e (some os) f = rw (e, f) ((λ h. absurd (cc)), (λ u. absurd u))
    split (some vs) e none f = rw (e, f) ((λ h. absurd (cc)), (λ u. absurd u))
    split (some vs) e (some os) f =
        rw (e, f)
          (
            (λ h. (by_values-eq vs os).0 (sym (pick s o vs os) ∙ h)),
            (λ p. pick s o vs os ∙ (by_values-eq vs os).1 p),
          )

differ-not_eq : {A : Type 0} (a b : String) → (a == b) ≡ false → compare a b ≡ Ordering.eq → A
differ-not_eq a b e h = absurd (false≢true (sym e ∙ (eq_iff a b).1 (path_by_compare a b h)))

-- Compare says 0 of two match expressions exactly if they have the same key and operator, and their
-- values are both nil or the same up to their order.
pub compare_requirement-eq :
    (s o : SelectorRequirements)
    → ((compare_requirement s o).0 ≡ Ordering.eq)
      ↔ ((s.key ≡ o.key) × (s.operator ≡ o.operator) × HaveSame s.values o.values)
unfolding compare_requirement
compare_requirement-eq s o = elim (Bool-cases (s.key == o.key)) [
  | inr e ↦ rw e (
    (λ h. differ-not_eq s.key o.key e h),
    (λ p. absurd (false≢true (sym e ∙ (eq_iff s.key o.key).1 p.0))),
  )
  | inl e ↦ elim (Bool-cases (s.operator == o.operator)) [
    | inr f ↦
        rw (e, f)
          (
            (λ h. differ-not_eq s.operator o.operator f h),
            (λ p. absurd (false≢true (sym f ∙ (eq_iff s.operator o.operator).1 p.1))),
          )
    | inl f ↦
        rw (e, f)
          (
            (λ h. (
              (eq_iff s.key o.key).0 e,
              (eq_iff s.operator o.operator).0 f,
              (compare_by_values-eq s o).0 h,
            )),
            (λ p. (compare_by_values-eq s o).1 p.2),
          )
  ]
]
