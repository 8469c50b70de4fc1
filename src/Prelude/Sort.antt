-- ===== src/Prelude/Sort.antt =====
-- Go's `sort.Sort` and `sort.Strings` on slices of at most twelve elements: the insertion sort of
-- the package `sort`. Its outer loop takes the elements from left to right; its inner loop swaps
-- the new element to the left while it is less than its neighbour.
use mathlib.Core.Bool.{Bool}
use mathlib.Core.List.{
  List, [], ◌∷◌, ◌++◌, Perm, reverse, reverse_perm, perm_middle, reverse_aux, append-nil,
}
use mathlib.Core.List.Perm
use native.Mathlib.Omega.{arith}
use cloud_provider_cherry.Prelude.Tests.{if◌then◌else◌, Bool-cases, text_lt}
use cloud_provider_cherry.Prelude.Lists.{All}
use mathlib.Core.Logic.{inl, inr}
use Prim.Native.String.{String}

module _ {ℓ} {A : Type ℓ} (less : A → A → Bool) where
  -- The inner loop; the sorted part is kept with its last element at the head.
  unfoldable pub sink : A → List A → List A
  sink x [] = x ∷ []
  sink x (y ∷ ys) = let lower = y ∷ sink x ys in if less x y then lower else x ∷ y ∷ ys

  unfoldable pub sort_from : List A → List A → List A
  sort_from done [] = reverse done
  sort_from done (x ∷ xs) = sort_from (sink x done) xs

  unfoldable pub sort : List A → List A
  unfolding sort_from sink
  sort xs = sort_from [] xs

  sink-perm : (x : A) (ys : List A) → Perm (sink x ys) (x ∷ ys)
  unfolding sink
  sink-perm x [] = Perm.refl _
  sink-perm x (y ∷ ys) = elim (Bool-cases (less x y)) [
    | inl lower ↦ rw lower (Perm.trans (Perm.cons y (sink-perm x ys)) (Perm.swap x y ys))
    | inr stays ↦ rw stays (Perm.refl _)
  ]

  sort_from-perm : (done xs : List A) → Perm (sort_from done xs) (done ++ xs)
  unfolding sort_from
  sort_from-perm done [] = rw append-nil (reverse_perm done)
  sort_from-perm done (x ∷ xs) =
      Perm.trans (sort_from-perm (sink x done) xs)
        (Perm.trans (Perm.append_right xs (sink-perm x done)) (Perm.symm (perm_middle done xs)))

  -- Sorting keeps the elements, whatever the comparison.
  pub sort-perm : (xs : List A) → Perm (sort xs) xs
  unfolding sort
  sort-perm xs = sort_from-perm [] xs

  module _ {κ} (P : A → Type κ) where
    sink-All : (x : A) (ys : List A) → P x → All P ys → All P (sink x ys)
    unfolding sink
    sink-All x [] p h = (p, tt)
    sink-All x (y ∷ ys) p h = ground (arith, sink-All x ys p h.1)

    reverse_aux-All : (xs ys : List A) → All P xs → All P ys → All P (reverse_aux xs ys)
    reverse_aux-All [] ys h k = k
    reverse_aux-All (x ∷ xs) ys h k = reverse_aux-All xs (x ∷ ys) h.1 (h.0, k)

    sort_from-All : (done xs : List A) → All P done → All P xs → All P (sort_from done xs)
    unfolding sort_from
    sort_from-All done [] h k = reverse_aux-All done [] h tt
    sort_from-All done (x ∷ xs) h k = sort_from-All (sink x done) xs (sink-All x done k.0 h) k.1

    pub sort-All : (xs : List A) → All P xs → All P (sort xs)
    unfolding sort
    sort-All xs h = sort_from-All [] xs tt h

abbrev pub sort_strings : List String → List String
sort_strings = sort text_lt
