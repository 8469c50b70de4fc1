-- ===== src/Prelude/Int.antt =====
-- Go's signed integers, under the library's names, over the native numbers.
use Prim.Native.Nat.{ℕ, suc}
use Prim.Native.String.{String, ◌++◌}
use mathlib.Core.Path.{◌≡◌}
use mathlib.Core.Logic.{◌↔◌}
use mathlib.Core.Bool.{Bool, true, false}
use native.Mathlib.Omega.{arith}
use cloud_provider_cherry.Prelude.Tests.{Eq, ◌==◌, nat_eq}
use cloud_provider_cherry.Prelude.Texts.{format_nat}

-- `negsuc n` is -(n + 1).
pub data ℤ : Type 0 where
  pos : ℕ → ℤ
  negsuc : ℕ → ℤ

-- `%d`
unfoldable pub format_int : ℤ → String
format_int (pos n) = format_nat n
format_int (negsuc n) = "-" ++ format_nat (suc n)

abbrev int_beq : ℤ → ℤ → Bool
int_beq (pos m) (pos n) = m == n
int_beq (negsuc m) (negsuc n) = m == n
int_beq (pos m) (negsuc n) = false
int_beq (negsuc m) (pos n) = false

pub int_beq_iff : (a b : ℤ) → (int_beq a b ≡ true) ↔ (a ≡ b)
int_beq_iff (pos m) (pos n) = ground (arith, nat_eq.beq_iff m n)
int_beq_iff (negsuc m) (negsuc n) = ground (arith, nat_eq.beq_iff m n)
int_beq_iff (pos m) (negsuc n) = ground arith
int_beq_iff (negsuc m) (pos n) = ground arith

instance abbrev pub int_eq : Eq ℤ
int_eq = record { beq = int_beq; beq_iff = int_beq_iff }
