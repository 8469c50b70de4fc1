-- ===== src/Prelude/Find.antt =====
-- Searching lists with Boolean tests.
use mathlib.Core.Path.{◌≡◌, refl, sym, ap, ◌∙◌}
use mathlib.Core.Bool.{Bool, true, false, not, ◌&&◌, ◌||◌}
use mathlib.Core.Logic.{∥∥₁_elim}
use mathlib.Core.Option.{Option, none, some}
use mathlib.Core.List.{List, [], ◌∷◌, Perm, Permᴰ}
use native.Mathlib.Omega.{arith}
use cloud_provider_cherry.Prelude.Tests.{if◌then◌else◌}
use cloud_provider_cherry.Prelude.Lists.{filter}

Bool-set : IsSet Bool
Bool-set = hlevel

module _ {ℓ} {A : Type ℓ} where
  abbrev pub any : (A → Bool) → List A → Bool
  any p [] = false
  any p (x ∷ xs) = p x || any p xs

  abbrev pub all : (A → Bool) → List A → Bool
  all p [] = true
  all p (x ∷ xs) = p x && all p xs

  abbrev pub find : (A → Bool) → List A → Option A
  find p [] = none
  find p (x ∷ xs) = if p x then some x else find p xs

  pub all-filter : (p q : A → Bool) (xs : List A) → all q xs ≡ true → all q (filter p xs) ≡ true
  all-filter p q [] h = refl
  all-filter p q (x ∷ xs) h = ground (arith, all-filter p q xs)

  pub filter-passes : (p : A → Bool) (xs : List A) → all p (filter p xs) ≡ true
  filter-passes p [] = refl
  filter-passes p (x ∷ xs) = ground (arith, filter-passes p xs)

  -- What `find` finds passes its test, and every test that the whole list passes.
  pub find-passes :
      (p q : A → Bool) (xs : List A) {a : A}
      → all q xs ≡ true
      → find p xs ≡ some a
      → (p a ≡ true) × (q a ≡ true)
  find-passes p q [] {a} h f = cc
  find-passes p q (x ∷ xs) {a} h f = ground (arith, find-passes p q xs {a = a})

  pub find-passes_self : (p : A → Bool) (xs : List A) {a : A} → find p xs ≡ some a → p a ≡ true
  find-passes_self p [] {a} f = cc
  find-passes_self p (x ∷ xs) {a} f = ground (arith, find-passes_self p xs {a = a})

  Permᴰ-all : (p : A → Bool) {xs ys : List A} → Permᴰ xs ys → all p xs ≡ all p ys
  Permᴰ-all p Permᴰ.nil = refl
  Permᴰ-all p (Permᴰ.cons e q) = ground (arith, Permᴰ-all p q)
  Permᴰ-all p (Permᴰ.swap e f) = ground arith
  Permᴰ-all p (Permᴰ.trans q r) = ground (arith, Permᴰ-all p q, Permᴰ-all p r)

  pub all-perm : (p : A → Bool) {xs ys : List A} → Perm xs ys → all p xs ≡ all p ys
  all-perm p q = ∥∥₁_elim q (Bool-set _ _) (Permᴰ-all p)

  any-all : (p : A → Bool) (xs : List A) → any p xs ≡ not (all (λ x. not (p x)) xs)
  any-all p [] = refl
  any-all p (x ∷ xs) = ground (arith, any-all p xs)

  pub any-perm : (p : A → Bool) {xs ys : List A} → Perm xs ys → any p xs ≡ any p ys
  any-perm p {xs} {ys} q = any-all p xs ∙ ap not (all-perm (λ x. not (p x)) q) ∙ sym (any-all p ys)
