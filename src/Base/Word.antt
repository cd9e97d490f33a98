-- ===== src/Base/Word.antt =====
-- Go's int64, and its rendering by the verb %d of the package fmt.
use enxame.Base.Tests.{◌==◌, leb, if◌then◌else◌}
use Prim.Native.Nat.{ℕ, zero, suc, ◌+◌, ◌-◌, ◌*◌, ◌/◌, ◌%◌, ◌<◌}
use Prim.Native.String
use Prim.Native.String.{String, slice}
use mathlib.Core.Path.{◌≡◌, refl}
use mathlib.Core.Bool.{Bool}
use native.Mathlib.Omega.{arith}

-- int64: a number below 2^64, negative from 2^63 on.
abbrev pub word : ℕ
word = 18446744073709551616

abbrev pub is_negative : ℕ → Bool
is_negative x = leb 9223372036854775808 x

-- Twenty digits are enough for a number below 2^64.
abbrev digit : ℕ → String
digit k = slice "0123456789" k (k + 1)

unfoldable pub digits : ℕ → ℕ → String → String
digits zero n rest = rest
digits (suc fuel) n rest =
    let more = digits fuel (n / 10) (String.◌++◌ (digit (n % 10)) rest) in
    if n / 10 == 0 then String.◌++◌ (digit (n % 10)) rest else more

-- The verb %d of fmt on an int64.
unfoldable pub format_int : ℕ → String
unfolding digits
format_int x = if is_negative x then String.◌++◌ "-" (digits 20 (word - x) "") else digits 20 x ""

-- The powers of ten.
abbrev pub bound : ℕ → ℕ
bound zero = 1
bound (suc k) = 10 * bound k

-- Any two amounts of fuel that are enough for a number render it alike.
pub digits_enough :
    (fuel other n : ℕ) (rest : String)
    → n < bound (suc fuel)
    → n < bound (suc other)
    → digits (suc fuel) n rest ≡ digits (suc other) n rest
unfolding digits
digits_enough zero zero n rest h k = refl
digits_enough zero (suc other) n rest h k = ground arith
digits_enough (suc fuel) zero n rest h k = ground arith
digits_enough (suc fuel) (suc other) n rest h k = ground (
  arith,
  digits_enough fuel other (n / 10) (String.◌++◌ (digit (n % 10)) rest) (omega arith) (omega arith),
)
