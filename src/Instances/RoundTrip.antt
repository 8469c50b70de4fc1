-- ===== src/Instances/RoundTrip.antt =====
-- cherry/instances.go: serverIDFromProviderID reads what providerIDFromServer writes.
use cloud_provider_cherry.Prelude.{
  ℕ, zero, suc, ◌+◌, ◌-◌, ◌*◌, ◌/◌, ◌%◌, ◌≤◌, ◌<◌, ◌<>◌, Bool, true, false, ◌&&◌, none, some, List,
  [], ◌∷◌, ◌++◌, ◌≡◌, refl, sym, ap, ◌∙◌, ◌==◌, string_eq, nat_eq, list_eq, pos, format_int,
  format_nat, format_digits, digit, codes, codes-append, split, split_walk, scan_digits,
  parse_digits, atoi, length, ltb, leb, all, arith, Bool-cases, inl, inr, eq_iff, some_inj,
}
use mathlib.Core.List.{append-nil, append_assoc}
use cloud_provider_cherry.Effect.{ok}
use cloud_provider_cherry.Instances.{
  convert_server_id, server_id_of_parts, server_id_from_provider_id, provider_id_from_server,
}

codes-digit : (d : ℕ) → d < 10 → codes (digit d) ≡ (48 + d) ∷ []
codes-digit zero h = refl
codes-digit (suc zero) h = refl
codes-digit (suc (suc zero)) h = refl
codes-digit (suc (suc (suc zero))) h = refl
codes-digit (suc (suc (suc (suc zero)))) h = refl
codes-digit (suc (suc (suc (suc (suc zero))))) h = refl
codes-digit (suc (suc (suc (suc (suc (suc zero)))))) h = refl
codes-digit (suc (suc (suc (suc (suc (suc (suc zero))))))) h = refl
codes-digit (suc (suc (suc (suc (suc (suc (suc (suc zero)))))))) h = refl
codes-digit (suc (suc (suc (suc (suc (suc (suc (suc (suc zero))))))))) h = refl
codes-digit (suc (suc (suc (suc (suc (suc (suc (suc (suc (suc d)))))))))) h = absurd (omega arith)

abbrev is_digit : ℕ → Bool
is_digit c = leb 48 c && leb c 57

false_true : {A : Type 0} → false ≡ true → A
false_true h = cc

none_some : {A B : Type 0} {a : A} → none ≡ some a → B
none_some h = cc

-- A digit after the digits of `m`.
scan_digits-append :
    (a m d : ℕ) (l : List ℕ)
    → d < 10
    → scan_digits a l ≡ some m
    → scan_digits a (l ++ ((48 + d) ∷ [])) ≡ some (m * 10 + d)
unfolding scan_digits
scan_digits-append a m d [] h e = let same : a ≡ m = some_inj e in ground arith
scan_digits-append a m d (c ∷ l) h e = elim (Bool-cases (leb b'0' c && leb c b'9')) [
  | inl t ↦ rw t (scan_digits-append (a * 10 + (c - b'0')) m d l h (rw (t, scan_digits) at e))
  | inr t ↦ none_some (rw (t, scan_digits) at e)
]

all-append :
    (l : List ℕ) (d : ℕ)
    → d < 10
    → all is_digit l ≡ true
    → all is_digit (l ++ ((48 + d) ∷ [])) ≡ true
all-append [] d h e = ground arith
all-append (c ∷ l) d h e = ground (arith, all-append l d h)

abbrev Reads : ℕ → List ℕ → Type 0
Reads n l = (scan_digits 0 l ≡ some n) × (all is_digit l ≡ true) × (ltb 0 (length l) ≡ true)

digit-Reads : (n : ℕ) → n < 10 → Reads n (codes (digit n))
unfolding scan_digits
digit-Reads n h = rw (codes-digit n h) (ground arith, ground arith, refl)

longer : (l : List ℕ) (d : ℕ) → ltb 0 (length (l ++ ((48 + d) ∷ []))) ≡ true
longer [] d = refl
longer (c ∷ l) d = ground arith

format_digits-Reads : (fuel n : ℕ) → n ≤ fuel → Reads n (codes (format_digits fuel n))
unfolding format_digits
format_digits-Reads zero n h = digit-Reads n (omega arith)
format_digits-Reads (suc fuel) n h = elim (Bool-cases (ltb n 10)) [
  | inl e ↦ rw (e, format_digits) (digit-Reads n (ground arith))
  | inr e ↦
      let (scanned, digits, some_digit) = format_digits-Reads fuel (n / 10) (smaller e) in
      rw (e, format_digits)
        (rw
          (
            codes-append (format_digits fuel (n / 10)) (digit (n % 10)),
            codes-digit (n % 10) (omega arith),
          )
          (
            scan_digits-append 0 (n / 10) (n % 10) (codes (format_digits fuel (n / 10)))
                  (omega arith) scanned
                ∙ ap some (omega arith),
            all-append (codes (format_digits fuel (n / 10))) (n % 10) (omega arith) digits,
            longer (codes (format_digits fuel (n / 10))) (n % 10),
          ))
]
  where
    smaller : ltb n 10 ≡ false → n / 10 ≤ fuel
    smaller e = ground arith

first_digit : (c : ℕ) (l : List ℕ) → all is_digit (c ∷ l) ≡ true → is_digit c ≡ true
first_digit c l h = ground arith

later_digits : (c : ℕ) (l : List ℕ) → all is_digit (c ∷ l) ≡ true → all is_digit l ≡ true
later_digits c l h = ground arith

no_colon : (c : ℕ) → is_digit c ≡ true → (58 == c) ≡ false
no_colon c h = ground arith

no_sign : (c : ℕ) → is_digit c ≡ true → ((c == 45) ≡ false) × ((c == 43) ≡ false)
no_sign c h = ground arith

in_limit : (n : ℕ) → n ≤ 9223372036854775807 → leb n 9223372036854775807 ≡ true
in_limit n h = ground arith

-- The parts of a text that has no separator any more.
split_digits :
    (part l : List ℕ)
    → all is_digit l ≡ true
    → split_walk (58 ∷ 47 ∷ 47 ∷ []) zero part l ≡ (part ++ l) ∷ []
unfolding split_walk
split_digits part [] h = ap (λ p. p ∷ []) (sym (append-nil part))
split_digits part (c ∷ l) h = rw (no_colon c (first_digit c l h)) (
    split_digits (part ++ (c ∷ [])) l (later_digits c l h)
    ∙ ap (λ p. p ∷ []) (append_assoc part (c ∷ []) l))

atoi_digits : (n : ℕ) (l : List ℕ) → Reads n l → n ≤ 9223372036854775807 → atoi l ≡ some (pos n)
unfolding atoi parse_digits
atoi_digits n [] h k = false_true h.2
atoi_digits n (c ∷ l) h k =
    let (minus, plus) = no_sign c (first_digit c l h.1) in
    rw (minus, plus, atoi, parse_digits) (rw (h.0, in_limit n k) refl)

abbrev numeral : ℕ → List ℕ
numeral n = codes (format_digits n n)

codes-provider_id_from_server :
    (n : ℕ) → codes (provider_id_from_server (pos n)) ≡ codes "cherryservers://" ++ numeral n
unfolding provider_id_from_server format_int format_nat
codes-provider_id_from_server n =
    codes-append "cherryservers" ("://" <> format_digits n n)
    ∙ ap (λ l. codes "cherryservers" ++ l) (codes-append "://" (format_digits n n))

nil_cons : {A : Type 0} {x : ℕ} {xs : List ℕ} → [] ≡ x ∷ xs → A
nil_cons h = cc

provider_id_not_empty : (n : ℕ) → (provider_id_from_server (pos n) == "") ≡ false
provider_id_not_empty n = elim (Bool-cases (provider_id_from_server (pos n) == "")) [
  | inr e ↦ e
  | inl e ↦ nil_cons (
      sym (ap codes ((eq_iff (provider_id_from_server (pos n)) "").0 e))
      ∙ codes-provider_id_from_server n)
]

split_provider_id :
    (l : List ℕ)
    → all is_digit l ≡ true
    → split (codes "cherryservers://" ++ l) (codes "://") ≡ codes "cherryservers" ∷ l ∷ []
unfolding split
split_provider_id l h = ap (λ p. codes "cherryservers" ∷ p) (split_digits [] l h)

of_numeral :
    (whole l : List ℕ) (n : ℕ)
    → atoi l ≡ some (pos n)
    → server_id_of_parts whole (codes "cherryservers" ∷ l ∷ []) ≡ ok (pos n)
unfolding server_id_of_parts convert_server_id
of_numeral whole l n e = rw (e, server_id_of_parts, convert_server_id) refl

-- A provider ID that was made from a server's ID, below 2^63, is read back as that ID.
pub server_id_from_provider_id-provider_id_from_server :
    (n : ℕ)
    → n ≤ 9223372036854775807
    → server_id_from_provider_id (provider_id_from_server (pos n)) ≡ ok (pos n)
unfolding server_id_from_provider_id
server_id_from_provider_id-provider_id_from_server n h =
    let reads = format_digits-Reads n n (omega arith) in
    rw
      (
        provider_id_not_empty n,
        codes-provider_id_from_server n,
        split_provider_id (numeral n) reads.1,
      )
      (of_numeral (codes "cherryservers://" ++ numeral n) (numeral n) n
        (atoi_digits n (numeral n) reads h))
