-- ===== src/Prelude/Subset.antt =====
-- Two maps of the same size, of which one has what the other has, are the same.
use Prim.Native.Nat.{◌+◌}
use Prim.Native.String.{String}
use mathlib.Core.Path.{◌≡◌, refl, sym, ap, ◌∙◌, subst}
use mathlib.Core.Bool.{Bool, true, false, ◌&&◌, false≢true}
use mathlib.Core.Option.{Option, none, some}
use mathlib.Core.Logic.{inl, inr}
use mathlib.Core.List.{List, [], ◌∷◌, map}
use native.Mathlib.Omega.{arith}
use cloud_provider_cherry.Prelude.Tests.{◌==◌, ◌!=◌, if◌then◌else◌, string_eq, nat_eq, Bool-cases}
use cloud_provider_cherry.Prelude.Lists.{length, contains}
use cloud_provider_cherry.Prelude.Find.{all}
use cloud_provider_cherry.Prelude.Maps.{Labels, lookup, erase, lookup-erase, index, HasDistinctKeys}

abbrev keys : Labels → List String
keys m = map (λ kv. kv.0) m

contains-erase :
    (k j : String) (m : Labels)
    → contains j (keys m) ≡ false
    → contains j (keys (erase k m)) ≡ false
unfolding erase
contains-erase k j [] h = h
contains-erase k j ((i, v) ∷ m) h = ground (arith, contains-erase k j m)

erase-HasDistinctKeys : (k : String) (m : Labels) → HasDistinctKeys m → HasDistinctKeys (erase k m)
unfolding erase
erase-HasDistinctKeys k [] h = tt
erase-HasDistinctKeys k ((i, v) ∷ m) h = elim (Bool-cases (i == k)) [
  | inl e ↦ rw e (erase-HasDistinctKeys k m h.1)
  | inr e ↦ rw e (contains-erase k i m h.0, erase-HasDistinctKeys k m h.1)
]

erase_absent : (k : String) (m : Labels) → contains k (keys m) ≡ false → erase k m ≡ m
unfolding erase
erase_absent k [] h = refl
erase_absent k ((i, v) ∷ m) h = elim (Bool-cases (i == k)) [
  | inl e ↦ absurd (ground (arith, string_eq.beq_iff i k, string_eq.beq_iff k i))
  | inr e ↦ rw e (ap (λ (l : Labels). (i, v) ∷ l) (erase_absent k m (ground arith)))
]

length-erase :
    (k v : String) (m : Labels)
    → HasDistinctKeys m
    → lookup k m ≡ some v
    → length (erase k m) + 1 ≡ length m
unfolding erase lookup
length-erase k v [] d h = absurd (cc)
length-erase k v ((i, w) ∷ m) d h = elim (Bool-cases (i == k)) [
  | inl e ↦
      let absent =
        subst (λ (j : String). contains j (keys m) ≡ false) ((string_eq.beq_iff i k).0 e) d.0 in
      rw e (ap (λ (l : Labels). length l + 1) (erase_absent k m absent) ∙ omega arith)
  | inr e ↦ rw e (omega (arith, length-erase k v m d.1 (rw e at h)))
]

-- Every entry of the second map is read of the first.
abbrev pub holds : Labels → Labels → Bool
holds o m = all (λ (kv : String × String). index o kv.0 == kv.1) m

-- No key has the empty value.
abbrev pub no_blank : Labels → Bool
no_blank m = all (λ (kv : String × String). kv.1 != "") m

abbrev or_blank : Option String → String
or_blank found = elim found [ none ↦ "" | some v ↦ v ]

index-erase : (k j : String) (o : Labels) → (k == j) ≡ false → index (erase k o) j ≡ index o j
index-erase k j o h =
    ap or_blank (lookup-erase k j o)
    ∙ ap (λ (b : Bool). or_blank (if b then none else lookup j o)) h

index-here : (k v j : String) (m : Labels) → (k == j) ≡ true → index ((k, v) ∷ m) j ≡ v
unfolding lookup
index-here k v j m h = ap (λ (b : Bool). or_blank (if b then some v else lookup j m)) h

pub index-there :
    (k v j : String) (m : Labels) → (k == j) ≡ false → index ((k, v) ∷ m) j ≡ index m j
unfolding lookup
index-there k v j m h = ap (λ (b : Bool). or_blank (if b then some v else lookup j m)) h

-- A key that is read as something is there.
index-lookup : (o : Labels) (k v : String) → (v == "") ≡ false → index o k ≡ v → lookup k o ≡ some v
index-lookup o k v b h = split (lookup k o) refl
  where
    split : (found : Option String) → lookup k o ≡ found → lookup k o ≡ some v
    split none e = absurd (false≢true (sym b ∙ (string_eq.beq_iff v "").1 (sym h ∙ ap or_blank e)))
    split (some w) e = e ∙ ap some (sym (ap or_blank e) ∙ h)

holds-erase :
    (k : String) (o m : Labels)
    → contains k (keys m) ≡ false
    → holds o m ≡ true
    → holds (erase k o) m ≡ true
holds-erase k o [] a h = refl
holds-erase k o ((i, v) ∷ m) a h =
    let other : (k == i) ≡ false = ground (arith, a) in
    let same = index-erase k i o other in
    let rest = holds-erase k o m (ground (arith, a)) (ground (arith, h)) in
    let here : (index o i == v) ≡ true = ground (arith, h) in
    subst (λ (t : String). (t == v && holds (erase k o) m) ≡ true) (sym same)
      (ground (arith, here, rest))

-- Maps with distinct keys, of one size, the first of which has every entry of the second, none of
-- them empty, read the same at every key.
pub index-of_holds :
    (o m : Labels)
    → HasDistinctKeys o
    → HasDistinctKeys m
    → no_blank m ≡ true
    → length m ≡ length o
    → holds o m ≡ true
    → (j : String) → index o j ≡ index m j
index-of_holds [] [] d e b l h j = refl
index-of_holds (x ∷ o) [] d e b l h j = absurd (omega (arith, l))
index-of_holds o ((k, v) ∷ m) d e b l h j =
    let blank : (v == "") ≡ false = ground (arith, b) in
    let here : (index o k == v) ≡ true = ground (arith, h) in
    let value = (string_eq.beq_iff (index o k) v).0 here in
    let shorter = length-erase k v o d (index-lookup o k v blank value) in
    let rest =
      index-of_holds (erase k o) m (erase-HasDistinctKeys k o d) e.1 (ground (arith, b))
        (omega (arith, shorter, l)) (holds-erase k o m e.0 (ground (arith, h))) j in
    elim (Bool-cases (k == j)) [
      | inl s ↦
          ap (index o) (sym ((string_eq.beq_iff k j).0 s)) ∙ value ∙ sym (index-here k v j m s)
      | inr s ↦ sym (index-erase k j o s) ∙ rest ∙ sym (index-there k v j m s)
    ]
