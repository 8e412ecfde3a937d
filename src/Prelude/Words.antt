-- ===== src/Prelude/Words.antt =====
-- Machine integers: `uint` is a number below 2 ^ 32, kept by writing the wrap-around out.
use Prim.Native.Nat.{ℕ, ◌-◌, ◌/◌, ◌%◌}
use stateline.Prelude.Tests.{leb, if◌then◌else◌}

-- A C++ `int`: `negsuc n` is -(n + 1).
pub data ℤ : Type 0 where
  pos : ℕ → ℤ
  negsuc : ℕ → ℤ

abbrev pub uint_mod : ℕ
uint_mod = 4294967296

abbrev pub ulong_mod : ℕ
ulong_mod = 18446744073709551616

abbrev pub int_max : ℕ
int_max = 2147483647

-- The conversion of a number to `uint`, and of an `int`.
abbrev pub wrap : ℕ → ℕ
wrap n = n % uint_mod

abbrev pub to_uint : ℤ → ℕ
to_uint (pos n) = wrap n
to_uint (negsuc n) = uint_mod - 1 - wrap n

-- `duration_cast` of `now - since` to a unit of so many nanoseconds, as a `uint`. The difference
-- may be negative; the cast rounds towards zero.
unfoldable pub elapsed : (unit since now : ℕ) → ℕ
elapsed unit since now =
    if leb since now
    then wrap ((now - since) / unit)
    else wrap (uint_mod - wrap ((since - now) / unit))
