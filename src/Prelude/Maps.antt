-- ===== src/Prelude/Maps.antt =====
-- Go maps with string keys, as association lists. Their order stands for the order in which Go
-- ranges over the map, which is not specified. A missing key reads as none (the `ok` of `v, ok`).
use Prim.Native.String.{String}
use mathlib.Core.Path.{◌≡◌, refl}
use mathlib.Core.Bool.{false}
use mathlib.Core.Option.{Option, none, some}
use mathlib.Core.List.{List, [], ◌∷◌, map}
use native.Mathlib.Omega.{arith}
use cloud_provider_cherry.Prelude.Tests.{Eq, ◌==◌, if◌then◌else◌, string_eq, nat_eq}
use cloud_provider_cherry.Prelude.Lists.{contains}

module _ {ℓ κ} {K : Type κ} {V : Type ℓ} ⦃e : Eq K⦄ where
  unfoldable pub lookup : K → List (K × V) → Option V
  lookup k [] = none
  lookup k ((j, value) ∷ entries) = if j == k then some value else lookup k entries

  -- entries[k] = value
  unfoldable pub insert : K → V → List (K × V) → List (K × V)
  insert k value [] = (k, value) ∷ []
  insert k value ((j, old) ∷ entries) =
      if j == k then (k, value) ∷ entries else (j, old) ∷ insert k value entries

  -- delete(entries, k)
  unfoldable pub erase : K → List (K × V) → List (K × V)
  erase k [] = []
  erase k ((j, old) ∷ entries) =
      let rest = erase k entries in if j == k then rest else (j, old) ∷ rest

  pub lookup-insert :
      (k j : K) (value : V) (entries : List (K × V))
      → lookup j (insert k value entries) ≡ (if k == j then some value else lookup j entries)
  unfolding lookup insert
  lookup-insert k j value [] = refl
  lookup-insert k j value ((i, old) ∷ entries) =
      ground (arith, e.beq_iff k j, e.beq_iff i k, e.beq_iff i j, lookup-insert k j value entries)

  pub lookup-erase :
      (k j : K) (entries : List (K × V))
      → lookup j (erase k entries) ≡ (if k == j then none else lookup j entries)
  unfolding lookup erase
  lookup-erase k j [] = ground arith
  lookup-erase k j ((i, old) ∷ entries) =
      ground (arith, e.beq_iff k j, e.beq_iff i k, e.beq_iff i j, lookup-erase k j entries)

  -- No key stands twice.
  abbrev pub HasDistinctKeys : List (K × V) → Type 0
  HasDistinctKeys [] = Unit
  HasDistinctKeys ((k, v) ∷ m) = (contains k (map (λ p. p.0) m) ≡ false) × HasDistinctKeys m

  pub lookup_absent :
      (k : K) (m : List (K × V)) → contains k (map (λ p. p.0) m) ≡ false → lookup k m ≡ none
  unfolding lookup
  lookup_absent k [] h = refl
  lookup_absent k ((j, v) ∷ m) h = ground (arith, e.beq_iff k j, e.beq_iff j k, lookup_absent k m)

-- Go's map from strings to strings.
abbrev pub Labels : Type 0
Labels = List (String × String)

-- m[k] of a map to strings: the empty text for a missing key.
abbrev pub index : Labels → String → String
index m k = elim (lookup k m) [ none ↦ "" | some v ↦ v ]
