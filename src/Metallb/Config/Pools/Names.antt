-- ===== src/Metallb/Config/Pools/Names.antt =====
-- The names in the name of an address pool, joined by commas, are read back.
use Prim.Native.Char.{Char, code}
use Prim.Native.String.{char_at}
use text.Mathlib.TextLemmas.{nil-append, cons-append}
use cloud_provider_cherry.Prelude.{
  String, ◌<>◌, Bool, true, false, not, ◌&&◌, List, [], ◌∷◌, ◌++◌, ◌≡◌, refl, ap, ◌∙◌, ◌==◌,
  string_eq, nat_eq, if◌then◌else◌, All, contains, sort_strings, sort-perm, sort-All, text_lt,
  contains-perm, Bool-cases, inl, inr, beq_refl, arith, All-append,
}
use cloud_provider_cherry.Metallb.Config.Pools.{split_names, join_names, name_joiner}

-- A text without a comma.
abbrev pub has_no_comma : String → Bool
has_no_comma String.[] = true
has_no_comma (String.◌∷◌ c s) = not (code c == b',') && has_no_comma s

abbrev pub IsOneName : String → Type 0
IsOneName name = has_no_comma name ≡ true

prepend_char :
    (c : Char) (s name : String) (names : List String)
    → (code c == b',') ≡ false
    → split_names s ≡ name ∷ names
    → split_names (String.◌∷◌ c s) ≡ String.◌∷◌ c name ∷ names
unfolding split_names
prepend_char c s name names h e = rw (split_names, h, e) refl

-- The names after one more character in front.
rebuilt-All :
    (c : Char) (rest : List String)
    → All IsOneName rest
    → All IsOneName (
        if code c == b','
        then "" ∷ rest
        else elim rest [ [] ↦ [] | name ∷ names ↦ String.◌∷◌ c name ∷ names ])
rebuilt-All c [] h = elim (Bool-cases (code c == b',')) [
  | inl e ↦ rw e (refl, tt)
  | inr e ↦ rw e tt
]
rebuilt-All c (name ∷ names) h = elim (Bool-cases (code c == b',')) [
  | inl e ↦ rw e (refl, h)
  | inr e ↦ rw e (rw e h.0, h.1)
]

split_names-All : (s : String) → All IsOneName (split_names s)
unfolding split_names
split_names-All String.[] = (refl, tt)
split_names-All (String.◌∷◌ c s) = rebuilt-All c (split_names s) (split_names-All s)

pub split_names-of_one : (name : String) → IsOneName name → split_names name ≡ name ∷ []
unfolding split_names
split_names-of_one String.[] h = refl
split_names-of_one (String.◌∷◌ c s) h = elim (Bool-cases (code c == b',')) [
  | inl e ↦ let impossible = rw (has_no_comma, e) at h in cc
  | inr e ↦ prepend_char c s s [] e (split_names-of_one s (rw (has_no_comma, e) at h))
]

split_names-joined :
    (name rest : String)
    → IsOneName name
    → split_names (name <> name_joiner <> rest) ≡ name ∷ split_names rest
unfolding split_names
split_names-joined String.[] rest h = ap split_names (
    nil-append (name_joiner <> rest)
    ∙ cons-append (char_at "," 0) "" rest
    ∙ ap (String.◌∷◌ (char_at "," 0)) (nil-append rest))
split_names-joined (String.◌∷◌ c s) rest h = elim (Bool-cases (code c == b',')) [
  | inl e ↦ let impossible = rw (has_no_comma, e) at h in cc
  | inr e ↦
      ap split_names (cons-append c s (name_joiner <> rest))
      ∙ prepend_char c (s <> name_joiner <> rest) s (split_names rest) e
          (split_names-joined s rest (rw (has_no_comma, e) at h))
]

-- Names without commas, one at least, are read back when they are joined.
pub split_names-join_names :
    (name : String) (names : List String)
    → All IsOneName (name ∷ names)
    → split_names (join_names (name ∷ names)) ≡ name ∷ names
unfolding join_names
split_names-join_names name [] (h, k) = split_names-of_one name h
split_names-join_names name (other ∷ others) (h, k) =
    split_names-joined name (join_names (other ∷ others)) h
    ∙ ap (λ (l : List String). name ∷ l) (split_names-join_names other others k)

contains-joined :
    (name : String) (names : List String)
    → All IsOneName names
    → contains name names ≡ true
    → contains name (split_names (join_names names)) ≡ true
contains-joined name [] h c = cc
contains-joined name (x ∷ xs) h c = rw (split_names-join_names x xs h) c

contains-last : (name : String) (names : List String) → contains name (names ++ name ∷ []) ≡ true
contains-last name [] = rw beq_refl refl
contains-last name (x ∷ xs) = ground (arith, contains-last name xs)

-- The names of a pool and an added one, sorted and joined, hold the added one.
pub contains-merged :
    (name pool_name : String)
    → IsOneName name
    → contains name (split_names (join_names (sort_strings (split_names pool_name ++ name ∷ []))))
      ≡ true
contains-merged name pool_name one =
    contains-joined name (sort_strings (split_names pool_name ++ name ∷ []))
      (sort-All text_lt IsOneName (split_names pool_name ++ name ∷ []) (
        All-append IsOneName (split_names pool_name) (name ∷ []) (split_names-All pool_name)
          (one, tt)))
      (contains-perm name (sort-perm text_lt (split_names pool_name ++ name ∷ []))
        ∙ contains-last name (split_names pool_name))
