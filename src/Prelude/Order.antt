-- ===== src/Prelude/Order.antt =====
-- The order of Go's strings is a strict total order, so a sorted list of strings depends on its
-- elements alone.
use Prim.Native.Nat.{ℕ, Ordering, compare as compare_nat}
use Prim.Native.Char.{Char, code}
use Prim.Native.String.{String, compare, then as then_compare}
use Prim.Native.String.compare.{nil-cons, cons-nil, cons-cons}
use mathlib.Core.Path.{◌≡◌, refl, sym, ap, ◌∙◌}
use mathlib.Core.Bool.{Bool, true, false, ◌&&◌, ◌||◌, false≢true}
use mathlib.Core.Logic.{∥∥₁_elim}
use mathlib.Core.List.{List, [], ◌∷◌, Perm, Permᴰ}
use native.Mathlib.Omega.{arith}
use text.Mathlib.Text.{is_lt}
use text.Mathlib.TextEquality.{Char-path}
use cloud_provider_cherry.Prelude.Tests.{text_lt, ltb, ◌==◌, nat_eq, string_eq, list_beq_iff}
use cloud_provider_cherry.Prelude.Sort.{sink, sort_from, sort, sort_strings}

then_lt :
    (m n : ℕ) (r : Ordering)
    → is_lt (then_compare (compare_nat m n) r) ≡ (ltb m n || m == n && is_lt r)
then_lt m n r =
    elim (compare_nat m n)
      as (λ o. is_lt (then_compare o r) ≡ (
        (elim o [ Ordering.lt ↦ true | _ ↦ false ])
        || (elim o [ Ordering.eq ↦ true | _ ↦ false ]) && is_lt r)) [
          | Ordering.lt ↦ refl
          | Ordering.eq ↦ refl
          | Ordering.gt ↦ refl
        ]

lt_cons :
    (c d : Char) (s t : String)
    → text_lt (String.◌∷◌ c s) (String.◌∷◌ d t)
      ≡ (ltb (code c) (code d) || code c == code d && text_lt s t)
lt_cons c d s t = ap is_lt (cons-cons c d s t) ∙ then_lt (code c) (code d) (compare s t)

-- What the sort needs of the order.
pub text_lt-asym : (s t : String) → text_lt s t ≡ true → text_lt t s ≡ false
text_lt-asym String.[] String.[] h = cc
text_lt-asym String.[] (String.◌∷◌ d t) h = ap is_lt (cons-nil d t)
text_lt-asym (String.◌∷◌ c s) String.[] h = absurd (false≢true (sym (ap is_lt (cons-nil c s)) ∙ h))
text_lt-asym (String.◌∷◌ c s) (String.◌∷◌ d t) h =
    rw lt_cons (ground (arith, lt_cons c d s t, text_lt-asym s t))

-- Of two strings neither of which is lower, both are the same.
pub text_lt-tri : (s t : String) → text_lt s t ≡ false → text_lt t s ≡ false → s ≡ t
text_lt-tri String.[] String.[] h k = refl
text_lt-tri String.[] (String.◌∷◌ d t) h k = absurd (false≢true (sym h ∙ ap is_lt (nil-cons d t)))
text_lt-tri (String.◌∷◌ c s) String.[] h k = absurd (false≢true (sym k ∙ ap is_lt (nil-cons c s)))
text_lt-tri (String.◌∷◌ c s) (String.◌∷◌ d t) h k =
    let h' = rw lt_cons at h in
    let k' = rw lt_cons at k in
    let same : code c ≡ code d = ground (arith, h', k') in
    let rest = text_lt-tri s t (ground (arith, h', k', same)) (ground (arith, h', k', same)) in
    λ i. String.◌∷◌ (Char-path c d same i) (rest i)

-- What is lower than one string, and not another, is apart from it.
pub text_lt-apart : (s t u : String) → text_lt s u ≡ true → text_lt t u ≡ false → text_lt s t ≡ true
text_lt-apart String.[] String.[] u h k = absurd (false≢true (sym k ∙ h))
text_lt-apart String.[] (String.◌∷◌ d t) u h k = ap is_lt (nil-cons d t)
text_lt-apart (String.◌∷◌ c s) t String.[] h k =
    absurd (false≢true (sym (ap is_lt (cons-nil c s)) ∙ h))
text_lt-apart (String.◌∷◌ c s) String.[] (String.◌∷◌ e u) h k =
    absurd (false≢true (sym k ∙ ap is_lt (nil-cons e u)))
text_lt-apart (String.◌∷◌ c s) (String.◌∷◌ d t) (String.◌∷◌ e u) h k =
    let h' = rw lt_cons at h in
    let k' = rw lt_cons at k in rw lt_cons (ground (arith, h', k', text_lt-apart s t u))

sink-sink :
    (x y : String) (l : List String)
    → sink text_lt x (sink text_lt y l) ≡ sink text_lt y (sink text_lt x l)
unfolding sink
sink-sink x y [] = ground (arith, text_lt-asym x y, text_lt-asym y x, text_lt-tri x y)
sink-sink x y (a ∷ l) = ground (
  arith,
  text_lt-asym x y,
  text_lt-asym y x,
  text_lt-tri x y,
  text_lt-apart x y a,
  text_lt-apart y x a,
  sink-sink x y l,
)

sort_from-permᴰ :
    {xs ys : List String}
    → Permᴰ xs ys
    → (done : List String) → sort_from text_lt done xs ≡ sort_from text_lt done ys
unfolding sort_from
sort_from-permᴰ Permᴰ.nil done = refl
sort_from-permᴰ (Permᴰ.cons {a} {b} {l₁} {l₂} e p) done =
    ap (λ (c : String). sort_from text_lt (sink text_lt c done) l₁) e
    ∙ sort_from-permᴰ p (sink text_lt b done)
sort_from-permᴰ (Permᴰ.swap {a} {b} {a'} {b'} {l} e f) done =
    ap (λ (c : String). sort_from text_lt (sink text_lt b (sink text_lt c done)) l) e
    ∙ ap (λ (c : String). sort_from text_lt (sink text_lt c (sink text_lt b' done)) l) f
    ∙ ap (λ (d : List String). sort_from text_lt d l) (sink-sink a' b' done)
sort_from-permᴰ (Permᴰ.trans p q) done = sort_from-permᴰ p done ∙ sort_from-permᴰ q done

Bool-set : IsSet Bool
Bool-set = hlevel

-- Lists with the same elements are the same when they are sorted.
pub sort_strings-perm : {xs ys : List String} → Perm xs ys → sort_strings xs ≡ sort_strings ys
unfolding sort
sort_strings-perm {xs} {ys} p = (list_beq_iff (sort_strings xs) (sort_strings ys)).0 (
    ∥∥₁_elim p (Bool-set _ _)
      (λ q. (list_beq_iff (sort_strings xs) (sort_strings ys)).1 (sort_from-permᴰ q [])))
