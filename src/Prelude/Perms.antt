-- ===== src/Prelude/Perms.antt =====
-- Permutations under the Boolean list functions.
use mathlib.Core.Path.{◌≡◌, refl, sym, ◌∙◌, ap}
use mathlib.Core.Bool.{Bool, true, false}
use mathlib.Core.Logic.{∥∥₁_elim, ∥∥₁_map, inl, inr}
use mathlib.Core.List.{List, ◌∷◌, Perm, Permᴰ}
use mathlib.Core.List.Permᴰ
use native.Mathlib.Nat.{ℕ_set}
use native.Mathlib.Omega.{arith}
use cloud_provider_cherry.Prelude.Tests.{Eq, if◌then◌else◌, Bool-cases}
use cloud_provider_cherry.Prelude.Lists.{length, filter, contains}

Bool-set : IsSet Bool
Bool-set = hlevel

module _ {ℓ} {A : Type ℓ} where
  Permᴰ-length : {xs ys : List A} → Permᴰ xs ys → length xs ≡ length ys
  Permᴰ-length Permᴰ.nil = refl
  Permᴰ-length (Permᴰ.cons e p) = omega (arith, Permᴰ-length p)
  Permᴰ-length (Permᴰ.swap e f) = refl
  Permᴰ-length (Permᴰ.trans p q) = Permᴰ-length p ∙ Permᴰ-length q

  pub length-perm : {xs ys : List A} → Perm xs ys → length xs ≡ length ys
  length-perm p = ∥∥₁_elim p (ℕ_set _ _) Permᴰ-length

  swap_kept :
      (a b : A) (l : List A) (x y : Bool)
      → Permᴰ
          (if x then a ∷ (if y then b ∷ l else l) else (if y then b ∷ l else l))
          (if y then b ∷ (if x then a ∷ l else l) else (if x then a ∷ l else l))
  swap_kept a b l true true = Permᴰ.swap refl refl
  swap_kept a b l true false = Permᴰ.refl _
  swap_kept a b l false true = Permᴰ.refl _
  swap_kept a b l false false = Permᴰ.refl _

  Permᴰ-filter : (p : A → Bool) {xs ys : List A} → Permᴰ xs ys → Permᴰ (filter p xs) (filter p ys)
  Permᴰ-filter p Permᴰ.nil = Permᴰ.nil
  Permᴰ-filter p (Permᴰ.cons {a} {b} e q) = elim (Bool-cases (p a)) [
    | inl yes' ↦ rw (yes', ap p (sym e) ∙ yes') (Permᴰ.cons e (Permᴰ-filter p q))
    | inr no' ↦ rw (no', ap p (sym e) ∙ no') (Permᴰ-filter p q)
  ]
  Permᴰ-filter p (Permᴰ.swap {a} {b} {l} e f) =
      rw (← e, ← f) (swap_kept a b (filter p l) (p a) (p b))
  Permᴰ-filter p (Permᴰ.trans q r) = Permᴰ.trans (Permᴰ-filter p q) (Permᴰ-filter p r)

  pub filter-perm : (p : A → Bool) {xs ys : List A} → Perm xs ys → Perm (filter p xs) (filter p ys)
  filter-perm p q = ∥∥₁_map q (Permᴰ-filter p)

module _ {ℓ} {A : Type ℓ} ⦃e : Eq A⦄ where
  Permᴰ-contains : (a : A) {xs ys : List A} → Permᴰ xs ys → contains a xs ≡ contains a ys
  Permᴰ-contains a Permᴰ.nil = refl
  Permᴰ-contains a (Permᴰ.cons {b} {l₁} f p) = ground (arith, Permᴰ-contains a p)
  Permᴰ-contains a (Permᴰ.swap f g) = ground (arith)
  Permᴰ-contains a (Permᴰ.trans p q) = Permᴰ-contains a p ∙ Permᴰ-contains a q

  pub contains-perm : (a : A) {xs ys : List A} → Perm xs ys → contains a xs ≡ contains a ys
  contains-perm a p = ∥∥₁_elim p (Bool-set _ _) (Permᴰ-contains a)
