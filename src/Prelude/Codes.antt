-- ===== src/Prelude/Codes.antt =====
-- Texts as lists of code points, which for the texts that the program takes apart are their bytes.
use Prim.Native.Nat.{ℕ, zero, suc, ◌+◌, ◌-◌, ◌*◌, ◌^◌, ◌<◌}
use Prim.Native.Char.{code}
use Prim.Native.String.{String, ◌++◌ as ◌<>◌}
use mathlib.Core.Path.{◌≡◌, refl, sym, ap, ◌∙◌, subst}
use mathlib.Core.Logic.{◌≢◌, inl, inr}
use native.Mathlib.Omega.{arith}
use text.Mathlib.TextEquality.{eq_iff}
use text.Mathlib.TextLemmas.{nil-append, cons-append}
use mathlib.Core.Bool.{Bool, true, false, ◌&&◌}
use mathlib.Core.Option.{Option, none, some}
use mathlib.Core.List.{List, [], ◌∷◌, ◌++◌}
use cloud_provider_cherry.Prelude.Tests.{
  ltb, leb, Option-cases, Bool-cases, some_inj, ◌==◌, nat_eq, string_eq, if◌then◌else◌,
}
use cloud_provider_cherry.Prelude.Lists.{length}
use cloud_provider_cherry.Prelude.Int.{ℤ, pos, negsuc}

abbrev pub codes : String → List ℕ
codes String.[] = []
codes (String.◌∷◌ c s) = code c ∷ codes s

abbrev pub is_prefix : List ℕ → List ℕ → Bool
is_prefix [] s = true
is_prefix (p ∷ ps) [] = false
is_prefix (p ∷ ps) (c ∷ s) = p == c && is_prefix ps s

pub codes-append : (s t : String) → codes (s <> t) ≡ codes s ++ codes t
codes-append String.[] t = ap codes (nil-append t)
codes-append (String.◌∷◌ c s) t =
    ap codes (cons-append c s t) ∙ ap (λ l. code c ∷ l) (codes-append s t)

is_prefix-append : (s t : List ℕ) → is_prefix s (s ++ t) ≡ true
is_prefix-append [] t = refl
is_prefix-append (c ∷ s) t = ground (arith, is_prefix-append s t)

-- What begins with a text that is no prefix of another one differs from that one.
pub append-ne_of_prefix :
    (s rest t : String) → is_prefix (codes s) (codes t) ≡ false → (s <> rest == t) ≡ false
append-ne_of_prefix s rest t h = elim (Bool-cases (s <> rest == t)) [
  | inr e ↦ e
  | inl e ↦
      let same : codes s ++ codes rest ≡ codes t =
        sym (codes-append s rest) ∙ ap codes ((eq_iff (s <> rest) t).0 e) in
      let begins : is_prefix (codes s) (codes t) ≡ true =
        ap (is_prefix (codes s)) (sym same) ∙ is_prefix-append (codes s) (codes rest) in
      absurd (cc)
]

append-cons-ne-nil : (xs : List ℕ) (y : ℕ) (ys : List ℕ) → xs ++ (y ∷ ys) ≢ []
append-cons-ne-nil [] y ys h = cc
append-cons-ne-nil (x ∷ xs) y ys h = cc

-- A text with a dot inside is not empty.
pub with_dot-ne-empty : (before after : String) → (before <> "." <> after == "") ≡ false
with_dot-ne-empty before after = elim (Bool-cases (before <> "." <> after == "")) [
  | inr e ↦ e
  | inl e ↦ absurd (
      append-cons-ne-nil (codes before) b'.' (codes after) (
        ap (λ l. codes before ++ l) (sym (codes-append "." after))
        ∙ sym (codes-append before ("." <> after))
        ∙ ap codes ((eq_iff (before <> "." <> after) "").0 e)))
]

-- strings.Split by a separator that is not empty: `skip` counts what is left of a separator.
unfoldable pub split_walk : List ℕ → ℕ → List ℕ → List ℕ → List (List ℕ)
split_walk sep skip part [] = part ∷ []
split_walk sep (suc skip) part (c ∷ s) = split_walk sep skip part s
split_walk sep zero part (c ∷ s) =
    let closed = part ∷ split_walk sep (length sep - 1) [] s in
    let longer = split_walk sep zero (part ++ (c ∷ [])) s in
    if is_prefix sep (c ∷ s) then closed else longer

unfoldable pub split : List ℕ → List ℕ → List (List ℕ)
unfolding split_walk
split s sep = split_walk sep zero [] s

-- The digits of strconv.Atoi.
unfoldable pub scan_digits : ℕ → List ℕ → Option ℕ
scan_digits n [] = some n
scan_digits n (c ∷ s) =
    let next = scan_digits (n * 10 + (c - b'0')) s in
    if leb b'0' c && leb c b'9' then next else none

unfoldable pub parse_digits : List ℕ → Option ℕ
unfolding scan_digits
parse_digits [] = none
parse_digits (c ∷ s) = scan_digits 0 (c ∷ s)

abbrev below_limit : ℕ → (ℕ → ℤ) → Option ℕ → Option ℤ
below_limit limit f none = none
below_limit limit f (some n) = if leb n limit then some (f n) else none

abbrev negate : ℕ → ℤ
negate zero = pos 0
negate (suc n) = negsuc n

-- strconv.Atoi, with an int of 64 bits: an optional sign and at least one digit, in range.
unfoldable pub atoi : List ℕ → Option ℤ
unfolding parse_digits
atoi [] = none
atoi (c ∷ s) =
    if c == b'-'
    then below_limit (2 ^ 63) negate (parse_digits s)
    else if c == b'+'
    then below_limit (2 ^ 63 - 1) pos (parse_digits s)
    else below_limit (2 ^ 63 - 1) pos (parse_digits (c ∷ s))

abbrev pub IsInt32 : ℤ → Type 0
IsInt32 (pos n) = n < 2 ^ 31
IsInt32 (negsuc n) = n < 2 ^ 31

abbrev in_int32 : ℤ → Option ℤ
in_int32 (pos n) = if ltb n (2 ^ 31) then some (pos n) else none
in_int32 (negsuc n) = if ltb n (2 ^ 31) then some (negsuc n) else none

-- strconv.ParseInt(text, 10, 32)
unfoldable pub parse_int32 : String → Option ℤ
unfolding atoi
parse_int32 text = elim (atoi (codes text)) [ none ↦ none | some n ↦ in_int32 n ]

in_int32-IsInt32 : (n : ℤ) {m : ℤ} → in_int32 n ≡ some m → IsInt32 m
in_int32-IsInt32 (pos n) {m} h = elim (Bool-cases (ltb n (2 ^ 31))) [
  | inl e ↦
      let small : IsInt32 (pos n) = ground arith in
      subst IsInt32 (some_inj (rw (in_int32, e) at h)) small
  | inr e ↦ let impossible = rw (in_int32, e) at h in cc
]
in_int32-IsInt32 (negsuc n) {m} h = elim (Bool-cases (ltb n (2 ^ 31))) [
  | inl e ↦
      let small : IsInt32 (negsuc n) = ground arith in
      subst IsInt32 (some_inj (rw (in_int32, e) at h)) small
  | inr e ↦ let impossible = rw (in_int32, e) at h in cc
]

pub parse_int32-IsInt32 : (text : String) {n : ℤ} → parse_int32 text ≡ some n → IsInt32 n
unfolding parse_int32
parse_int32-IsInt32 text {n} h = elim (Option-cases (atoi (codes text))) [
  | inl e ↦ let impossible = rw (parse_int32, e) at h in cc
  | inr (m, e) ↦ in_int32-IsInt32 m (rw (parse_int32, e) at h)
]
