-- ===== src/Prelude/Decimal.antt =====
-- Integers, and `Display` of numbers.
use Prim.Native.Nat.{ℕ, zero, suc, ◌+◌, ◌/◌, ◌%◌, ◌<◌}
use Prim.Native.String.{String, ◌++◌}
use mathlib.Core.Path.{◌≡◌, refl}
use native.Mathlib.Omega.{arith}
use cap_protocol.Prelude.Tests.{ltb, if◌then◌else◌}

-- `negsuc n` is -(n + 1).
pub data ℤ : Type 0 where
  pos : ℕ → ℤ
  negsuc : ℕ → ℤ

abbrev digit : ℕ → String
digit zero = "0"
digit (suc zero) = "1"
digit (suc (suc zero)) = "2"
digit (suc (suc (suc zero))) = "3"
digit (suc (suc (suc (suc zero)))) = "4"
digit (suc (suc (suc (suc (suc zero))))) = "5"
digit (suc (suc (suc (suc (suc (suc zero)))))) = "6"
digit (suc (suc (suc (suc (suc (suc (suc zero))))))) = "7"
digit (suc (suc (suc (suc (suc (suc (suc (suc zero)))))))) = "8"
digit _ = "9"

-- The digits of a number in front of a text; each round needs one unit of fuel.
digits : ℕ → ℕ → String → String
digits zero n after = after
digits (suc fuel) n after =
    let rest = digits fuel (n / 10) (digit (n % 10) ++ after) in
    if ltb n 10 then digit n ++ after else rest

-- More fuel than the number changes nothing.
digits-enough : (f g n : ℕ) (after : String) → n < f → n < g → digits f n after ≡ digits g n after
unfolding digits
digits-enough zero g n after h k = elim h [ ]
digits-enough (suc f) zero n after h k = elim k [ ]
digits-enough (suc f) (suc g) n after h k =
    ground (arith, digits-enough f g (n / 10) (digit (n % 10) ++ after))

-- `n.to_string()`
unfoldable pub show_nat : ℕ → String
unfolding digits
show_nat n = digits (n + 1) n ""

unfoldable pub show_int : ℤ → String
unfolding show_nat
show_int (pos n) = show_nat n
show_int (negsuc n) = "-" ++ show_nat (n + 1)

show_nat_test : show_nat 30715 ≡ "30715"
unfolding show_nat
show_nat_test = refl
