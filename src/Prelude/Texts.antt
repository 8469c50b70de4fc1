-- ===== src/Prelude/Texts.antt =====
-- Texts of Go's packages strconv and strings: decimal numerals, lower case for the ASCII letters
-- (a region slug is ASCII), `strings.TrimPrefix`, `strings.TrimSuffix` and `strings.HasPrefix`.
use Prim.Native.Nat.{ℕ, zero, suc, ◌+◌, ◌-◌, ◌/◌, ◌%◌}
use Prim.Native.Char.{Char, code}
use Prim.Native.String.{String, ◌++◌, char_at, slice, len}
use mathlib.Core.Path.{◌≡◌, refl}
use mathlib.Core.Bool.{Bool, ◌&&◌}
use text.Mathlib.Text.{starts_with}
use cloud_provider_cherry.Prelude.Tests.{ltb, leb, ◌==◌, string_eq, nat_eq, if◌then◌else◌}

-- The digit of a number below ten.
abbrev pub digit : ℕ → String
digit d = slice "0123456789" d (d + 1)

-- `%d` of a number that is not negative. A number is at least as large as its count of digits is
-- long, so the fuel does not run out.
unfoldable pub format_digits : ℕ → ℕ → String
format_digits zero n = digit n
format_digits (suc fuel) n =
    let higher = format_digits fuel (n / 10) in
    if ltb n 10 then digit n else (higher ++ digit (n % 10))

unfoldable pub format_nat : ℕ → String
unfolding format_digits
format_nat n = format_digits n n

abbrev lower_char : Char → Char
lower_char c =
    if leb b'A' (code c) && leb (code c) b'Z'
    then char_at "abcdefghijklmnopqrstuvwxyz" (code c - b'A')
    else c

unfoldable pub to_lower : String → String
to_lower String.[] = String.[]
to_lower (String.◌∷◌ c s) = String.◌∷◌ (lower_char c) (to_lower s)

unfoldable pub has_prefix : String → String → Bool
has_prefix s prefix = starts_with s prefix

unfoldable pub trim_prefix : String → String → String
trim_prefix s prefix = if starts_with s prefix then slice s (len prefix) (len s) else s

unfoldable pub trim_suffix : String → String → String
trim_suffix s suffix =
    let cut = len s - len suffix in
    if leb (len suffix) (len s) && slice s cut (len s) == suffix then slice s 0 cut else s

-- `strings.Replace(s, old, replacement, 1)` of an `old` that is not empty.
unfoldable pub replace_once : String → String → String → String
replace_once String.[] old replacement = String.[]
replace_once (String.◌∷◌ c s) old replacement =
    let rest = replace_once s old replacement in
    let text = String.◌∷◌ c s in
    if starts_with text old
    then replacement ++ slice text (len old) (len text)
    else String.◌∷◌ c rest

-- `strings.SplitN(s, "/", 2)[0]`
unfoldable pub before_slash : String → String
before_slash String.[] = String.[]
before_slash (String.◌∷◌ c s) =
    let rest = before_slash s in if code c == b'/' then String.[] else String.◌∷◌ c rest

texts_tests :
    (format_nat 4050 ≡ "4050")
    × (format_nat 0 ≡ "0")
    × (to_lower "LT-Siauliai-1" ≡ "lt-siauliai-1")
    × (trim_prefix "/ns/" "/" ≡ "ns/")
    × (trim_suffix "ns/" "/" ≡ "ns")
    × (trim_suffix "/" "//" ≡ "/")
    × (replace_once "peers-{{n}}-{{n}}" "{{n}}" "0" ≡ "peers-0-{{n}}")
    × (before_slash "5.1.1.1/32" ≡ "5.1.1.1")
unfolding format_nat to_lower trim_prefix trim_suffix replace_once before_slash
texts_tests = (refl, refl, refl, refl, refl, refl, refl, refl)
